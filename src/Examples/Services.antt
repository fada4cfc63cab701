-- ===== src/Examples/Services.antt =====
-- The service registry on a concrete table (kernel/src/ipc/registry.rs).
use capsule_os.Base.{
  get_elem?, ℕ, ◌<◌, ◌≤◌, ◌≡◌, ◌⊎◌, none, some, List, [], ◌∷◌, length, replicate, bytes_eq,
  if◌then◌else◌,
}
use capsule_os.Shared.Status.{invalid_args, already_exists, no_memory, not_found}
use capsule_os.Shared.Result.{ok, err}
use capsule_os.Ipc.Registry.{
  IsFull, Registry, name_size, register_service, lookup_service, register_service-lookup,
}

-- The service "fs", under a channel.
abbrev registry : Registry
registry =
    some (record { name = 102 ∷ 115 ∷ replicate 14 0; name_len = 2; channel_ptr = 4096 })
    ∷ replicate 7 none

-- "net".
abbrev name : List ℕ
name = 110 ∷ 101 ∷ 116 ∷ []

register_service-lookup_example :
    (((length name ≡ 0) ⊎ (name_size < length name))
      × (register_service registry name 8192 ≡ (err invalid_args, registry)))
    ⊎ ((0 < length name)
        × (length name ≤ name_size)
        × (((old : ℕ) × (lookup_service registry name ≡ ok old)
              × (register_service registry name 8192 ≡ (err already_exists, registry)))
            ⊎ ((lookup_service registry name ≡ err not_found)
                × ((IsFull registry
                      × (register_service registry name 8192 ≡ (err no_memory, registry)))
                    ⊎ ((i : ℕ) × (get_elem? registry i ≡ some none)
                        × ((register_service registry name 8192).0 ≡ ok tt)
                        × ((k : List ℕ)
                            → lookup_service (register_service registry name 8192).1 k ≡ (
                                if bytes_eq name k
                                then ok 8192
                                else lookup_service registry k)))))))
register_service-lookup_example = register_service-lookup registry name 8192
