-- ===== src/Uploads/Attempt.antt =====
-- The `try` block of apps/uploads/tasks.py: steps that write to the storage and may raise
-- `PipelineReject`, `FfmpegError`, or any other exception.
use backend_live_canvas.Prelude.{String, Bool, true, false, List}
use backend_live_canvas.Uploads.Models.{Zone}

pub data Attempt {ℓ} (A : Type ℓ) : Type ℓ where
  done : A → Attempt A
  -- `PipelineReject`
  rejected : String → Attempt A
  -- `FfmpegError`
  tool_failed : String → Attempt A
  -- any other exception
  interrupted : String → Attempt A

-- The objects that the storage holds.
abbrev pub Objects : Type 0
Objects = List (Zone × String)

abbrev pub Steps : Type 0 → Type 0
Steps A = Objects → Attempt A × Objects

module _ {A : Type 0} where
  abbrev pub pure : A → Steps A
  pure a objects = (done a, objects)

  -- A call that writes nothing.
  abbrev pub answer : Attempt A → Steps A
  answer r objects = (r, objects)

abbrev pub check : Bool → String → Steps (Unit {0})
check true reason objects = (done tt, objects)
check false reason objects = (rejected reason, objects)

module _ {A B : Type 0} where
  abbrev go_on : Attempt A → (A → Steps B) → Steps B
  go_on (done a) f objects = f a objects
  go_on (rejected m) f objects = (rejected m, objects)
  go_on (tool_failed m) f objects = (tool_failed m, objects)
  go_on (interrupted m) f objects = (interrupted m, objects)

  infixl 5 ◌>>=◌ ◌>>◌
  abbrev pub ◌>>=◌ : Steps A → (A → Steps B) → Steps B
  ◌>>=◌ m f objects = go_on (m objects).0 f (m objects).1

  abbrev pub ◌>>◌ : Steps A → Steps B → Steps B
  ◌>>◌ m k = m >>= λ _. k
