-- ===== src/Runner/Flags.antt =====
-- Arguments that the command line of main.rs reads back as they were meant.
use lean_rust_wasm.Prelude.{◌≡◌, refl, ◌∙◌, List, [], ◌∷◌, ◌++◌, false, ok, err, All}
use lean_rust_wasm.Text.{Text, codes}
use lean_rust_wasm.Runner.Cli.{
  Cli, with_manifest, with_component, with_other, is_manifest_flag, is_component_flag, parse_from,
  parse_flags, artifact,
}

-- What a caller says: a path with its flag, or another argument.
pub data Word : Type 0 where
  manifest_word component_word other_word : Text → Word

abbrev pub spell : List Word → List Text
spell [] = []
spell (manifest_word p ∷ ws) = codes "--manifest" ∷ (p ∷ spell ws)
spell (component_word p ∷ ws) = codes "--component" ∷ (p ∷ spell ws)
spell (other_word t ∷ ws) = t ∷ spell ws

-- The other arguments are not flags.
abbrev pub WordOk : Word → Type 0
WordOk (manifest_word p) = Unit
WordOk (component_word p) = Unit
WordOk (other_word t) = (is_manifest_flag t ≡ false) × (is_component_flag t ≡ false)

-- The last path of each flag counts; the other arguments stay in order.
abbrev pub heard : Cli → List Word → Cli
heard cli [] = cli
heard cli (manifest_word p ∷ ws) = heard (with_manifest cli p) ws
heard cli (component_word p ∷ ws) = heard (with_component cli p) ws
heard cli (other_word t ∷ ws) = heard (with_other cli t) ws

parse_other :
    (cli : Cli) (t : Text) (args : List Text)
    → is_manifest_flag t ≡ false
    → is_component_flag t ≡ false
    → parse_from cli (t ∷ args) ≡ parse_from (with_other cli t) args
unfolding parse_from
parse_other cli t [] hm hc = rw (hm, hc) refl
parse_other cli t (u ∷ args) hm hc = rw (hm, hc) refl

parse_heard :
    (cli : Cli) (ws : List Word) (args : List Text)
    → All WordOk ws
    → parse_from cli (spell ws ++ args) ≡ parse_from (heard cli ws) args
unfolding parse_from
parse_heard cli [] args h = refl
parse_heard cli (manifest_word p ∷ ws) args (h, hs) = parse_heard (with_manifest cli p) ws args hs
parse_heard cli (component_word p ∷ ws) args (h, hs) = parse_heard (with_component cli p) ws args hs
parse_heard cli (other_word t ∷ ws) args ((hm, hc), hs) =
    parse_other cli t (spell ws ++ args) hm hc ∙ parse_heard (with_other cli t) ws args hs

abbrev pub default : Text → Cli
default crate_dir = record {
  manifest = artifact crate_dir (codes "diff.json");
  component = artifact crate_dir (codes "demo.component.wasm");
  rest = [];
}

-- Flags with paths and other arguments, in any order, are read as they are meant: the last path of
-- each flag counts, a flag that is not given leaves the default, and the other arguments stay in order.
-- With a flag behind them that has no path they are refused.
pub parse_flags_words :
    (crate_dir : Text) (ws : List Word)
    → All WordOk ws
    → (parse_flags crate_dir (spell ws ++ []) ≡ ok (heard (default crate_dir) ws))
      × (parse_flags crate_dir (spell ws ++ codes "--manifest" ∷ [])
          ≡ err (codes "--manifest needs a path"))
      × (parse_flags crate_dir (spell ws ++ codes "--component" ∷ [])
          ≡ err (codes "--component needs a path"))
unfolding parse_flags parse_from
parse_flags_words crate_dir ws h = (
  parse_heard (default crate_dir) ws [] h,
  parse_heard (default crate_dir) ws (codes "--manifest" ∷ []) h,
  parse_heard (default crate_dir) ws (codes "--component" ∷ []) h,
)
