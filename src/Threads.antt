-- ===== src/Threads.antt =====
-- include/hypercomm/core/threading.hpp: the identifiers of threads. Each processing element has a pool
-- of free identifiers; a manager holds those of the threads of one chare, and takes them along when
-- the chare migrates. A thread is represented by its identifier, and creating, awakening and freeing it
-- is the runtime's part. An abort, or a failed assertion, is `none`.
pub mod Identifiers
mod Tests
use hypercomm.Base.{
  ℕ, zero, suc, ◌+◌, ◌*◌, ◌≡◌, Bool, true, false, List, [], ◌∷◌, ◌++◌, Option, none, some,
  get_elem?, set, erase_idx, contains, index_of, nat_eq, if◌then◌else◌, ◌>>=◌,
}

-- `manager`, with the processing element that it is on.
pub record Manager : Type 0 where
  pub pe : ℕ
  pub threads : List ℕ
  pub is_migrating : Bool

-- The pools `free_ids_`, the managers, and the packed threads that are on their way.
pub record World : Type 0 where
  pub pools : List (List ℕ)
  pub managers : List Manager
  pub images : List (List ℕ)

-- `iota` of `setup_isomalloc`, and the pools of so many processing elements.
unfoldable pub iota : ℕ → ℕ → List ℕ
iota first zero = []
iota first (suc n) = first ∷ iota (suc first) n

unfoldable pub setup_isomalloc : ℕ → ℕ → List ℕ
setup_isomalloc max_threads my_pe = iota (max_threads * my_pe) max_threads

unfoldable pub setup_all : ℕ → ℕ → ℕ → List (List ℕ)
setup_all max_threads my_pe zero = []
setup_all max_threads my_pe (suc n) =
    setup_isomalloc max_threads my_pe ∷ setup_all max_threads (suc my_pe) n

-- `create_context`: the last identifier of the pool; an empty pool aborts.
unfoldable pub create_context : List ℕ → Option (ℕ × List ℕ)
create_context [] = none
create_context (id ∷ pool) = elim (create_context pool) [
  | none ↦ some (id, [])
  | some (last, rest) ↦ some (last, id ∷ rest)
]

-- `threads_.emplace`, which keeps an entry that is there.
unfoldable pub emplace_thread : ℕ → List ℕ → List ℕ
emplace_thread id threads = if contains id threads then threads else threads ++ id ∷ []

-- `emplace` of a manager, with the pool of its processing element.
unfoldable pub start_thread : List ℕ → Manager → Option (ℕ × List ℕ × Manager)
start_thread pool m = do
  (id, rest) ← create_context pool
  some (id, rest, record m { threads = emplace_thread id m.threads })

-- `on_free`: nothing happens while the manager migrates.
unfoldable pub on_free : ℕ → List ℕ → Manager → List ℕ × Manager
on_free id pool m =
    if m.is_migrating
    then (pool, m)
    else (pool ++ id ∷ [], record m { threads = erase_idx m.threads (index_of id m.threads) })

-- `pup`: packing marks the manager, unpacking puts the threads into a new one.
unfoldable pub pack_threads : Manager → List ℕ × Manager
pack_threads m = (m.threads, record m { is_migrating = true })

unfoldable pub unpack_threads : List ℕ → Manager → Manager
unpack_threads [] m = m
unpack_threads (id ∷ ids) m =
    unpack_threads ids (record m { threads = emplace_thread id m.threads })

abbrev pub new_manager : ℕ → Manager
new_manager pe = record { pe = pe; threads = []; is_migrating = false }

-- What can happen next. Freed threads are those of their manager; one that migrates is only freed.
pub data Step : World → World → Type 0 where
  arrive : {w : World} (pe : ℕ) → Step w (record w { managers = new_manager pe ∷ w.managers })
  starts :
      {w : World} (i : ℕ) (m m' : Manager) (pool rest : List ℕ) (id : ℕ)
      → get_elem? w.managers i ≡ some m
      → m.is_migrating ≡ false
      → get_elem? w.pools m.pe ≡ some pool
      → start_thread pool m ≡ some (id, rest, m')
      → Step w (record w { managers = set w.managers i m'; pools = set w.pools m.pe rest })
  frees :
      {w : World} (i : ℕ) (m : Manager) (pool : List ℕ) (id : ℕ)
      → get_elem? w.managers i ≡ some m
      → contains id m.threads ≡ true
      → get_elem? w.pools m.pe ≡ some pool
      → Step w (record w {
        managers = set w.managers i (on_free id pool m).1;
        pools = set w.pools m.pe (on_free id pool m).0;
      })
  packs :
      {w : World} (i : ℕ) (m : Manager)
      → get_elem? w.managers i ≡ some m
      → m.is_migrating ≡ false
      → Step w (record w {
        managers = set w.managers i (pack_threads m).1;
        images = (pack_threads m).0 ∷ w.images;
      })
  unpacks :
      {w : World} (k pe : ℕ) (image : List ℕ)
      → get_elem? w.images k ≡ some image
      → Step w (record w {
        managers = unpack_threads image (new_manager pe) ∷ w.managers;
        images = erase_idx w.images k;
      })

pub data Reach (start : World) : World → Type 0 where
  begin : Reach start start
  next : {w w' : World} → Reach start w → Step w w' → Reach start w'
