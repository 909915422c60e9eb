-- ===== src/Interceptor.antt =====
-- src/hypercomm/messaging/interceptor.cc: one processing element's branch of the interceptor, for
-- one array (its maps are keyed by the array first, and nothing crosses arrays). The messages
-- that are buffered for indices are one list in order of arrival. The location manager is a
-- parameter; its cache of locations is state. What is handed to local elements, sent to other
-- branches and asked of them is logged. `none` is an abort, a cycle of forwarding requests, or a
-- delivery that enters itself again through `send_to_branch` more often than the fuel allows.
pub mod Forwarding
pub mod Onward
mod Tests
use hypercomm.Base.{
  ℕ, zero, suc, ◌+◌, Bool, true, false, ◌&&◌, List, [], ◌∷◌, ◌++◌, Option, none, some,
  if◌then◌else◌, Eq, ◌==◌, nat_beq, nat_eq, Assoc, lookup, insert, erase, length, is_some,
}

-- `CkLocMgr` and the array manager: the home of an index, its identifier, if known, and whether
-- the element with an identifier is local.
pub record Manager (I : Type 0) : Type 0 where
  pub home_pe : I → ℕ
  pub lookup_id : I → Option ℕ
  pub is_local : ℕ → Bool

-- A location of the cache: a null element is -1 in the source.
pub record Location : Type 0 where
  pub pe : Option ℕ
  pub epoch : ℕ

-- What leaves the branch.
pub data Effect (I M : Type 0) : Type 0 where
  handed : I → M → Bool → Effect I M
  sent : ℕ → I → M → Effect I M
  asked_forward : ℕ → I → I → Effect I M
  asked_stop : ℕ → I → Effect I M

pub record Branch (I M : Type 0) : Type 0 where
  pub fwd_reqs : Assoc I I
  pub queued : List (I × M)
  pub cache : Assoc ℕ Location
  pub created : ℕ
  pub processed : ℕ
  pub effects : List (Effect I M)

module _ {I : Type 0} ⦃e : Eq I⦄ where
  -- `dealias`; each step follows a request, so acyclic requests need at most as many as there are.
  unfoldable pub dealias : ℕ → Assoc I I → I → Option I
  dealias zero reqs idx = none
  dealias (suc fuel) reqs idx = elim (lookup idx reqs) [
    | none ↦ some idx
    | some next ↦ dealias fuel reqs next
  ]

module _ {I M : Type 0} ⦃e : Eq I⦄ where
  abbrev pub emit : Effect I M → Branch I M → Branch I M
  emit x b = record b { effects = b.effects ++ x ∷ [] }

  -- The messages that are buffered for an index, and the others.
  abbrev pub taken : I → List (I × M) → List M
  taken idx [] = []
  taken idx ((i, m) ∷ q) = if i == idx then m ∷ taken idx q else taken idx q

  abbrev pub left : I → List (I × M) → List (I × M)
  left idx [] = []
  left idx ((i, m) ∷ q) = if i == idx then left idx q else (i, m) ∷ left idx q

-- `lookup_fallback_`.
unfoldable pub lookup_fallback : {I : Type 0} → Manager I → I → ℕ × Option ℕ
lookup_fallback mgr idx = (mgr.home_pe idx, some (mgr.home_pe idx))

module _ {I M : Type 0} ⦃e : Eq I⦄ (mgr : Manager I) (mine : ℕ) where
  -- `lookup_or_update_`: the last known location and the home, which is -1 unless it was needed.
  unfoldable pub lookup_or_update : I → ℕ → Branch I M → (ℕ × Option ℕ) × Branch I M
  lookup_or_update idx id b =
      let entry : Location = elim (lookup id b.cache) [
        | none ↦ record { pe = none; epoch = 0 }
        | some l ↦ l
      ] in
      elim entry.pe [
        | none ↦
            let home = mgr.home_pe idx in
            (
              (home, some home),
              record b {
                cache = insert id (record { pe = some home; epoch = entry.epoch + 1 }) b.cache;
              },
            )
        | some last ↦ ((last, (if nat_beq last mine then some (mgr.home_pe idx) else none)), b)
      ]

  -- `send_to_branch`; packing is not modelled. `again` is `send_async`, for this PE.
  unfoldable pub send_to_branch :
      (I → M → Branch I M → Option (Branch I M)) → ℕ → I → M → Branch I M → Option (Branch I M)
  send_to_branch again pe idx msg b =
      if nat_beq pe mine then again idx msg b else some (emit (sent pe idx msg) b)

  -- The end of `deliver`, for an element that is not local; a home that is not known is no PE.
  unfoldable pub buffer_or_send :
      (I → M → Branch I M → Option (Branch I M))
      → I
      → M
      → ℕ × Option ℕ
      → Branch I M
      → Option (Branch I M)
  buffer_or_send again post msg (last, home) b =
      let at_home : Bool = elim home [ none ↦ false | some pe ↦ nat_beq last pe ] in
      if nat_beq mine last && at_home
      then some (record b { queued = b.queued ++ (post, msg) ∷ []; created = b.created + 1 })
      else send_to_branch again last post msg b

  -- `deliver` to the index that is the end of the forwarding requests.
  unfoldable pub deliver_to :
      (I → M → Branch I M → Option (Branch I M)) → I → M → Bool → Branch I M → Option (Branch I M)
  deliver_to again post msg immediate b = elim (mgr.lookup_id post) [
    | none ↦ buffer_or_send again post msg (lookup_fallback mgr post) b
    | some id ↦
        if mgr.is_local id
        then some (emit (handed post msg immediate) b)
        else (let (last_home, b') = lookup_or_update post id b in
            buffer_or_send again post msg last_home b')
  ]

  -- `deliver`; `send_async` of this PE enters it again.
  unfoldable pub deliver : ℕ → I → M → Bool → Branch I M → Option (Branch I M)
  deliver zero pre msg immediate b = none
  deliver (suc fuel) pre msg immediate b = elim (dealias (suc (length b.fwd_reqs)) b.fwd_reqs pre) [
    | none ↦ none
    | some post ↦ deliver_to (λ i m b1. deliver fuel i m false b1) post msg immediate b
  ]

  -- `send_async`, once the interceptor exists.
  unfoldable pub send_async : ℕ → I → M → Branch I M → Option (Branch I M)
  send_async fuel idx msg b = deliver fuel idx msg false b

  -- The loop of `resync_queue`.
  unfoldable pub redeliver : ℕ → I → List M → Branch I M → Option (Branch I M)
  redeliver fuel idx [] b = some b
  redeliver fuel idx (m ∷ ms) b = elim (deliver fuel idx m true b) [
    | none ↦ none
    | some b1 ↦ redeliver fuel idx ms (record b1 { processed = b1.processed + 1 })
  ]

  -- `resync_queue`.
  unfoldable pub resync_queue : ℕ → I → Branch I M → Option (Branch I M)
  resync_queue fuel idx b =
      redeliver fuel idx (taken idx b.queued) (record b { queued = left idx b.queued })

  -- `forward`.
  unfoldable pub forward : ℕ → I → I → Branch I M → Option (Branch I M)
  forward fuel source target b =
      let home = mgr.home_pe source in
      if nat_beq home mine
      then elim (lookup source b.fwd_reqs) [
        | none ↦ resync_queue fuel source (record b { fwd_reqs = insert source target b.fwd_reqs })
        | some _ ↦ none
      ]
      else some (emit (asked_forward home source target) b)

  -- `stop_forwarding`.
  unfoldable pub stop_forwarding : I → Branch I M → Branch I M
  stop_forwarding idx b =
      let home = mgr.home_pe idx in
      if nat_beq home mine
      then record b { fwd_reqs = erase idx b.fwd_reqs }
      else emit (asked_stop home idx) b
