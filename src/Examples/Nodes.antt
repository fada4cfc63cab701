-- ===== src/Examples/Nodes.antt =====
-- The file service on concrete nodes (userspace/services/fileagent/src/ramfs.rs, vfs.rs).
use capsule_os.Base.{
  ℕ, ◌≡◌, refl, ap, get_or, none, some, [], ◌∷◌, length-replicate, replicate, bytes_eq, arith,
}
use capsule_os.Base.Int.{pos}
use capsule_os.FileAgent.{
  file, Node, Ramfs, blank, empty, ◌>>=◌, init, first_free, alloc_idx, fill_slot, set_node,
  add_child, type_code, find_loop, find_child, create, stat_type,
}
use capsule_os.FileAgent.Siblings.{first_named, find_child-first_named}
use capsule_os.FileAgent.Creation.{HasRoom, create-find_child, alloc_idx-in_use}
use capsule_os.FileAgent.Sessions.{OpenFile, Session, Service, do_write, do_read}
use capsule_os.FileAgent.Contents.{do_write-do_read}

-- The root with one file, `a`.
abbrev root_node : Node
root_node = record blank { ntype = 2; name = 47 ∷ []; first_child = some 1; child_count = 1 }

abbrev file_node : Node
file_node = record blank { ntype = 1; name = 97 ∷ []; parent = some 0 }

abbrev one_file : Ramfs
one_file = record {
  nodes = root_node ∷ file_node ∷ replicate 14 blank;
  root = some 0;
  next_idx = 2;
}

-- It is what the program makes.
one_file-made : (init empty >>= create file 0 (97 ∷ [])) ≡ some (some 1, one_file)
unfolding init create find_child find_loop set_node fill_slot alloc_idx type_code add_child
one_file-made = refl

find_child-first_named_example :
    find_child 0 (97 ∷ []) one_file ≡ some (first_named one_file.nodes (97 ∷ []) (1 ∷ []))
find_child-first_named_example =
    find_child-first_named one_file 0 root_node (97 ∷ []) (1 ∷ []) (omega arith) refl
      (none, refl, refl, refl) (omega arith)

one_file-HasRoom : HasRoom one_file 0 (1 ∷ [])
one_file-HasRoom = record {
  p = root_node;
  old = blank;
  parent_at = refl;
  is_directory = refl;
  inside = omega arith;
  linked = (none, refl, refl, refl);
  few = omega arith;
  different = (tt, tt);
  no_parent = ((λ e. omega (arith, e)), tt);
  next = omega arith;
  next_at = refl;
  fresh = ((λ e. omega (arith, e)), tt);
  differ = λ e. omega (arith, e);
}

-- A file `b` beside it.
create-find_child_example :
    (s : Ramfs) × (create file 0 (98 ∷ []) one_file ≡ some (some 2, s))
    × (find_child 0 (98 ∷ []) s ≡ some (some 2))
    × (find_child 0 (97 ∷ []) s ≡ find_child 0 (97 ∷ []) one_file)
unfolding find_child find_loop bytes_eq
create-find_child_example =
    create-find_child one_file 0 (1 ∷ []) (98 ∷ []) (97 ∷ []) file one_file-HasRoom (omega arith)
      refl (λ e. omega (arith, ap (λ l. get_or l 0 0) e))

-- Every slot was given, and the first file has been removed since.
abbrev reused : Ramfs
reused = record {
  nodes = root_node ∷ blank ∷ file_node ∷ replicate 13 file_node;
  root = some 0;
  next_idx = 16;
}

alloc_idx-in_use_example :
    (s1 : Ramfs) × (s2 : Ramfs) × (alloc_idx reused ≡ (some 1, s1))
    × (alloc_idx s1 ≡ (some 2, s2))
    × (stat_type 2 s2 ≡ some file)
unfolding first_free
alloc_idx-in_use_example =
    alloc_idx-in_use reused 1 file_node (omega arith) refl (omega arith) refl refl

-- Two descriptors on the file.
abbrev opened : OpenFile
opened = record { node_idx = 1; offset = 0 }

abbrev two_opened : Session
two_opened = record { server_chan = 5; fds = some opened ∷ some opened ∷ replicate 14 none }

abbrev one_session : Service
one_session = record { sessions = some two_opened ∷ replicate 7 none; ramfs = one_file }

do_write-do_read_example :
    (s1 : Service) × (s2 : Service) × (do_write 0 0 (104 ∷ 105 ∷ []) one_session ≡ some (pos 2, s1))
    × (do_read 0 1 2 s1 ≡ some (pos 2, 104 ∷ 105 ∷ [], s2))
do_write-do_read_example =
    do_write-do_read one_session 0 0 1 two_opened 1 0 file_node (104 ∷ 105 ∷ []) refl refl refl
      (λ e. omega (arith, e)) (λ e. omega (arith, e)) (λ e. omega (arith, e)) refl refl
      (length-replicate {A = ℕ} 4096 0) (omega arith) (omega arith)
