-- ===== src/CacheManager.antt =====
-- ndk/cache_manager.h, ndk/cache_manager.cpp and ndk/cache_object.h: the cache of objects by key. The
-- mutex is held for the whole of a call. The objects are those of the factories in cache_object.h, by
-- address; a pointer to an object that was destroyed cannot be read through.
pub mod Calls
pub mod Queue
pub mod Sums
pub mod Valid
pub mod Pending
pub mod Insert
pub mod Flush
pub mod One
pub mod Loop
pub mod Make
pub mod Put
pub mod Get
pub mod Reach
mod Tests
use cute_ndk.Base.{
  ℕ, ◌+◌, ◌-◌, ◌*◌, ◌%◌, ◌^◌, ltb, leb, ◌==◌, if◌then◌else◌, Bool, true, false, not, ◌&&◌, Run, ok,
  fault, ◌>>=◌, ◌>>◌, require, Option, none, some, List, [], ◌∷◌,
}
use cute_ndk.Base.Array.{upd}
use cute_ndk.Base.Int.{ℤ, pos, negsuc, ◌+ℤ◌, ◌-ℤ◌}

-- A cache object. The observer may be null.
pub record CacheObject : Type 0 where
  pub refcount : ℤ
  pub size : ℕ
  pub contents : ℕ
  pub observer : ℕ

-- What the manager calls of the queue.
pub record QueueCalls (Q : Type 0) : Type 1 where
  pub length : Q → ℕ
  pub proxy : Q → ℕ → ℕ
  pub insert : Q → ℕ → ℕ → Run (Q × ℤ)
  pub remove : Q → Run (Q × Option (ℕ × ℕ))
  pub adjust : {S : Type 0} → Q → ℕ → (ℕ → S → Run S) → S → Run (Q × S × ℤ)

-- The manager, with the objects by address, the first address that no object has had, and the objects
-- that their observers were told to drop, the last one first. A key is a number.
pub record CacheManager (Q : Type 0) : Type 0 where
  pub cobj_min_size : ℕ
  pub cobj_max_size : ℕ
  pub water_mark : ℕ
  pub high_water_mark : ℕ
  pub low_water_mark : ℕ
  pub cache_map : ℕ → Option ℕ
  pub priority_queue : Q
  pub pending_list : List (ℕ × ℕ)
  pub objects : ℕ → Option CacheObject
  pub fresh : ℕ
  pub dropped : List ℕ

-- Sums and differences of unsigned longs.
abbrev pub add_long : ℕ → ℕ → ℕ
add_long a b = (a + b) % 2 ^ 64

abbrev pub sub_long : ℕ → ℕ → ℕ
sub_long a b = (a + (2 ^ 64 - b % 2 ^ 64)) % 2 ^ 64

abbrev pub equals_zero : ℤ → Bool
equals_zero (pos n) = n == 0
equals_zero (negsuc n) = false

-- The constructor, for numbers that are not negative, with a new queue. The marks are pointee in MB, and
-- their products are ints.
abbrev pub no_objects : {Q : Type 0} → Q → ℕ → ℕ → ℕ → ℕ → CacheManager Q
no_objects q min_obj_size max_obj_size high_water_mark low_water_mark = record {
  cobj_min_size = min_obj_size;
  cobj_max_size = max_obj_size;
  water_mark = 0;
  high_water_mark = high_water_mark;
  low_water_mark = low_water_mark;
  cache_map = λ key. none;
  priority_queue = q;
  pending_list = [];
  objects = λ a. none;
  fresh = 1;
  dropped = [];
}

unfoldable pub new_manager : {Q : Type 0} → Q → ℕ → ℕ → ℕ → ℕ → Run (CacheManager Q)
new_manager q min_obj_size max_obj_size high_water_mark low_water_mark = do
  let high = high_water_mark * 1024 * 1024
  let low = low_water_mark * 1024 * 1024
  require (ltb high (2 ^ 31))
  require (ltb low (2 ^ 31))
  ok (no_objects q min_obj_size max_obj_size high low)

-- Reading through a pointer.
abbrev pub pointee {ℓ} : {T : Type ℓ} → Option T → Run T
pointee none = fault
pointee (some t) = ok t

-- `acquire` and `release` of an object.
unfoldable pub acquire : ℕ → (ℕ → Option CacheObject) → Run (ℕ → Option CacheObject)
acquire a objects = do
  o ← pointee (objects a)
  ok (upd objects a (some (record o { refcount = o.refcount +ℤ pos 1 })))

unfoldable pub release : {Q : Type 0} → CacheManager Q → ℕ → Run (CacheManager Q)
release m a = do
  o ← pointee (m.objects a)
  ok (record m { objects = upd m.objects a (some (record o { refcount = o.refcount -ℤ pos 1 })) })

-- `drop` of an object, and `destroy` of the factory.
unfoldable pub drop : {Q : Type 0} → CacheManager Q → ℕ → Run (CacheManager Q)
drop m a = do
  o ← pointee (m.objects a)
  ok (
      if not (o.observer == 0) && equals_zero o.refcount
      then record m { dropped = a ∷ m.dropped }
      else m)

unfoldable pub destroy : {Q : Type 0} → CacheManager Q → ℕ → Run (CacheManager Q)
destroy m a = do _ ← pointee (m.objects a); ok (record m { objects = upd m.objects a none })

-- The pending objects are a map from keys: in the order of the keys, and an insertion of a key that is
-- there changes nothing.
unfoldable pub insert_pending : ℕ → ℕ → List (ℕ × ℕ) → List (ℕ × ℕ)
insert_pending key a [] = (key, a) ∷ []
insert_pending key a (e ∷ l) =
    if ltb key e.0
    then (key, a) ∷ e ∷ l
    else if key == e.0
    then e ∷ l
    else e ∷ insert_pending key a l

unfoldable pub find_pending : ℕ → List (ℕ × ℕ) → Option ℕ
find_pending key [] = none
find_pending key (e ∷ l) = if key == e.0 then some e.1 else find_pending key l

-- One pending object of flush_pending_objs; whether it is gone.
unfoldable pub sweep_one : {Q : Type 0} → CacheManager Q → ℕ → Run (CacheManager Q × Bool)
sweep_one {Q = Q} m a = do
  o ← pointee (m.objects a)
  let gone : Run (CacheManager Q × Bool) = do
    m1 ← drop (record m { water_mark = sub_long m.water_mark o.size }) a
    m2 ← destroy m1 a
    ok (m2, true)
  if equals_zero o.refcount then gone else ok (m, false)

-- The loop of flush_pending_objs, and the pending objects that stay.
unfoldable pub sweep :
    {Q : Type 0} → List (ℕ × ℕ) → CacheManager Q → Run (CacheManager Q × List (ℕ × ℕ))
unfolding sweep_one
sweep [] m = ok (m, [])
sweep (e ∷ l) m = do
  (m1, gone) ← sweep_one m e.1
  (m2, kept) ← sweep l m1
  ok (m2, if gone then kept else e ∷ kept)

abbrev pub no_pending {ℓ} : {T : Type ℓ} → List T → Bool
no_pending [] = true
no_pending (e ∷ l) = false

unfoldable pub flush_pending_objs : {Q : Type 0} → CacheManager Q → Run (CacheManager Q × ℤ)
unfolding sweep
flush_pending_objs {Q = Q} m =
    let walk : Run (CacheManager Q × ℤ) = do
      (m1, kept) ← sweep m.pending_list m
      ok (
        record m1 { pending_list = kept },
        if leb m1.water_mark m1.low_water_mark then pos 0 else negsuc 0,
      )
    in if no_pending m.pending_list then ok (m, negsuc 0) else walk

unfoldable pub drop_i : {Q : Type 0} → CacheManager Q → ℕ → ℕ → Run (CacheManager Q × ℤ)
drop_i {Q = Q} m key a = do
  o ← pointee (m.objects a)
  let gone : Run (CacheManager Q × ℤ) = do m1 ← drop m a; m2 ← destroy m1 a; ok (m2, pos 0)
  if equals_zero o.refcount
      then gone
      else ok (record m { pending_list = insert_pending key a m.pending_list }, negsuc 0)

-- What flush_i and flush_all do with an object that they have taken from the queue.
unfoldable pub flush_one : {Q : Type 0} → CacheManager Q → ℕ → ℕ → Run (CacheManager Q)
unfolding drop_i
flush_one m key a = do
  o ← pointee (m.objects a)
  (m1, r) ← drop_i (record m { cache_map = upd m.cache_map key none }) key a
  ok (if equals_zero r then record m1 { water_mark = sub_long m1.water_mark o.size } else m1)

unfoldable pub flush_got : {Q : Type 0} → CacheManager Q → Option (ℕ × ℕ) → Run (CacheManager Q × ℤ)
unfolding flush_one
flush_got m none = ok (m, negsuc 0)
flush_got m (some e) = flush_one m e.0 e.1 >>= λ m1. ok (m1, pos 0)
