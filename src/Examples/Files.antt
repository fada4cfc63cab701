-- ===== src/Examples/Files.antt =====
-- The vnode and descriptor tables on concrete entries (kernel/src/vfs/mod.rs).
use capsule_os.Base.{refl, none, some, ◌∷◌, replicate, arith, find_key}
use capsule_os.Vfs.Vnode.{Vnode, VnodeTable, directory, get_vnode, IsValid}
use capsule_os.Vfs.Descriptor.{FileDescriptor, Table}

abbrev root : Vnode
root = record { id = 1; vtype = directory; ref_count = 2; size = 0; flags = 0 }

-- One vnode, which two descriptors refer to.
abbrev vnodes : VnodeTable
vnodes = record { entries = some root ∷ replicate 255 none; next_id = 2 }

vnodes-IsValid : IsValid vnodes
unfolding get_vnode find_key
vnodes-IsValid = record { sized = refl; distinct = (refl, tt); issued = λ k h. ground arith }

abbrev open_file : FileDescriptor
open_file = record { vnode_id = 1; offset = 8; flags = 0; rights = 3 }

abbrev descriptors : Table
descriptors = some open_file ∷ replicate 127 none
