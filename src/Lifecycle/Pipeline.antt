-- ===== src/Lifecycle/Pipeline.antt =====
-- The stages of the build pipeline, generated/rust/pipeline_generated.rs. The name that a failed stage carries is a text.
use lean_rust_wasm.Prelude.{ℕ, ◌≡◌, ◌≢◌, refl, ap, List, [], ◌∷◌, All, arith, Option, none, some}
use lean_rust_wasm.Lifecycle.{Run, rest, fire, onward}

pub data PipelineStage : Type 0 where
  idle reflecting checked emitted tied : PipelineStage
  failed : List ℕ → PipelineStage

pub data PipelineEvent : Type 0 where
  reflect check emit tie reset : PipelineEvent

unfoldable pub step : PipelineStage → PipelineEvent → Option PipelineStage
step idle reflect = some reflecting
step reflecting check = some checked
step checked emit = some emitted
step emitted tie = some tied
step _ reset = some idle
step _ _ = none

-- No event makes a stage fail: only the driver sets a failure.
step-ne-failed :
    (s : PipelineStage) (e : PipelineEvent) (stage : List ℕ) → step s e ≢ some (failed stage)
unfolding step
step-ne-failed s e stage = λ h. ground arith

-- From a failed stage the only event that is accepted is the reset, which leads to idle.
pub failed_rests :
    {stage : List ℕ} {e : PipelineEvent} {es : List PipelineEvent} {t : PipelineStage}
    → Run step (failed stage) (e ∷ es) t
    → (e ≡ reset) × Run step idle es t
unfolding step
failed_rests (fire reflect h r) = cc
failed_rests (fire check h r) = cc
failed_rests (fire emit h r) = cc
failed_rests (fire tie h r) = cc
failed_rests (fire reset h r) = (refl, onward h r)

abbrev pub NoReset : List PipelineEvent → Type 0
NoReset es = All (λ e. e ≢ reset) es

from_tied : {es : List PipelineEvent} → NoReset es → Run step tied es tied → es ≡ []
unfolding step
from_tied n (rest s) = refl
from_tied n (fire reflect h r) = cc
from_tied n (fire check h r) = cc
from_tied n (fire emit h r) = cc
from_tied n (fire tie h r) = cc
from_tied n (fire reset h r) = absurd (n.0 refl)

from_emitted : {es : List PipelineEvent} → NoReset es → Run step emitted es tied → es ≡ tie ∷ []
unfolding step
from_emitted n (fire reflect h r) = cc
from_emitted n (fire check h r) = cc
from_emitted n (fire emit h r) = cc
from_emitted n (fire tie h r) = ap (λ es. tie ∷ es) (from_tied n.1 (onward h r))
from_emitted n (fire reset h r) = absurd (n.0 refl)

from_checked :
    {es : List PipelineEvent} → NoReset es → Run step checked es tied → es ≡ emit ∷ tie ∷ []
unfolding step
from_checked n (fire reflect h r) = cc
from_checked n (fire check h r) = cc
from_checked n (fire emit h r) = ap (λ es. emit ∷ es) (from_emitted n.1 (onward h r))
from_checked n (fire tie h r) = cc
from_checked n (fire reset h r) = absurd (n.0 refl)

from_reflecting :
    {es : List PipelineEvent}
    → NoReset es
    → Run step reflecting es tied
    → es ≡ check ∷ emit ∷ tie ∷ []
unfolding step
from_reflecting n (fire reflect h r) = cc
from_reflecting n (fire check h r) = ap (λ es. check ∷ es) (from_checked n.1 (onward h r))
from_reflecting n (fire emit h r) = cc
from_reflecting n (fire tie h r) = cc
from_reflecting n (fire reset h r) = absurd (n.0 refl)

-- Without a reset, the only way from idle to tied is to reflect, check, emit and tie.
pub tie_path :
    {es : List PipelineEvent}
    → NoReset es
    → Run step idle es tied
    → es ≡ reflect ∷ check ∷ emit ∷ tie ∷ []
unfolding step
tie_path n (fire reflect h r) = ap (λ es. reflect ∷ es) (from_reflecting n.1 (onward h r))
tie_path n (fire check h r) = cc
tie_path n (fire emit h r) = cc
tie_path n (fire tie h r) = cc
tie_path n (fire reset h r) = absurd (n.0 refl)
