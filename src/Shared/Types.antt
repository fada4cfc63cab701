-- ===== src/Shared/Types.antt =====
-- kernel/shared/src/types.rs: handle values and object types.
use capsule_os.Base.{ℕ, ◌≡◌, refl, if◌then◌else◌, ◌==◌}

-- `HandleValue(u32)`.
abbrev pub HandleValue : Type 0
HandleValue = ℕ

pub data ObjectType : Type 0 where
  process thread vmo vmar channel port event timer user_thread job vm_object unknown : ObjectType

unfoldable pub to_u32 : ObjectType → ℕ
to_u32 process = 0
to_u32 thread = 1
to_u32 vmo = 2
to_u32 vmar = 3
to_u32 channel = 4
to_u32 port = 5
to_u32 event = 6
to_u32 timer = 7
to_u32 user_thread = 8
to_u32 job = 9
to_u32 vm_object = 10
to_u32 unknown = 255

unfoldable pub from_u32 : ℕ → ObjectType
from_u32 n =
    if n == 0
    then process
    else if n == 1
    then thread
    else if n == 2
    then vmo
    else if n == 3
    then vmar
    else if n == 4
    then channel
    else if n == 5
    then port
    else if n == 6
    then event
    else if n == 7
    then timer
    else if n == 8
    then user_thread
    else if n == 9
    then job
    else if n == 10
    then vm_object
    else unknown

-- An object type survives the way out through `to_u32` and back through `from_u32`.
pub from_u32-to_u32 : (t : ObjectType) → from_u32 (to_u32 t) ≡ t
unfolding from_u32 to_u32
from_u32-to_u32 process = refl
from_u32-to_u32 _ = refl
