-- ===== src/Threads/Tests.antt =====
-- Two processing elements of two threads each: a thread starts on the first one and migrates.
use hypercomm.Base.{◌*◌, ◌≡◌, refl, false, [], ◌∷◌, ltb, if◌then◌else◌}
use hypercomm.Threads.{
  World, Manager, new_manager, Reach, begin, next, arrive, starts, packs, unpacks, iota,
  setup_isomalloc, setup_all, create_context, emplace_thread, start_thread, pack_threads,
  unpack_threads,
}
use hypercomm.Threads.Identifiers.{started, uses, Reach-IsUnique}

abbrev with_thread : Manager
with_thread = record { pe = 0; threads = 1 ∷ []; is_migrating = false }

abbrev moved : World
unfolding unpack_threads emplace_thread pack_threads setup_all setup_isomalloc iota
moved = record {
  pools = (0 ∷ []) ∷ (2 ∷ 3 ∷ []) ∷ [];
  managers = unpack_threads (1 ∷ []) (new_manager 1) ∷ (pack_threads with_thread).1 ∷ [];
  images = [];
}

migration : Reach (started 2 2) moved
unfolding moved iota setup_isomalloc setup_all create_context emplace_thread start_thread
    pack_threads unpack_threads
migration =
    next
      (next
        (next (next begin (arrive 0))
          (starts 0 (new_manager 0) with_thread (0 ∷ 1 ∷ []) (0 ∷ []) 1 refl refl refl refl))
        (packs 0 with_thread refl refl))
      (unpacks 0 1 (1 ∷ []) refl)

Reach-IsUnique_example : uses 1 moved ≡ (if ltb 1 (2 * 2) then 1 else 0)
Reach-IsUnique_example = Reach-IsUnique 2 2 moved 1 migration
