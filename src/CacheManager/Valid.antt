-- ===== src/CacheManager/Valid.antt =====
-- ndk/cache_manager.h: the manager, as the calls leave it.
use cute_ndk.Base.{ℕ, ◌+◌, ◌≤◌, ◌<◌, ◌^◌, ◌≡◌, ◌≢◌, ◌⊎◌, ap, Option, none, some, arith}
use cute_ndk.Base.Array.{upd, upd_self, upd_ne}
use cute_ndk.Base.Int.{pos}
use cute_ndk.CacheManager.{CacheManager, CacheObject, QueueCalls}
use cute_ndk.CacheManager.Queue.{QueueLaws}
use cute_ndk.CacheManager.Sums.{sizes, sizes-change, Each, Distinct}

abbrev pub size_of : Option CacheObject → ℕ
size_of none = 0
size_of (some o) = o.size

abbrev pub size_at : (ℕ → Option CacheObject) → ℕ → ℕ
size_at objects a = size_of (objects a)

-- The object is not destroyed.
abbrev pub IsLive : (ℕ → Option CacheObject) → ℕ → Type 0
IsLive objects a = (o : CacheObject) × (objects a ≡ some o)

-- The objects that are in use are as they were.
abbrev pub Kept : (ℕ → Option CacheObject) → (ℕ → Option CacheObject) → Type 0
Kept objects objects' =
    (a : ℕ) (o : CacheObject) → objects a ≡ some o → o.refcount ≢ pos 0 → objects' a ≡ some o

-- An object that takes the place of another, and one that is destroyed.
pub sizes-put :
    (objects objects' : ℕ → Option CacheObject) (n a : ℕ)
    → a < n
    → ((x : ℕ) → a ≢ x → objects' x ≡ objects x)
    → sizes (size_at objects') n + size_at objects a
      ≡ sizes (size_at objects) n + size_at objects' a
sizes-put objects objects' n a h same =
    sizes-change (size_at objects) (size_at objects') n a h λ x e. ap size_of (same x e)

pub sizes-destroyed :
    (objects : ℕ → Option CacheObject) (n a : ℕ) (o : CacheObject)
    → a < n
    → objects a ≡ some o
    → sizes (size_at (upd objects a none)) n + o.size ≡ sizes (size_at objects) n
sizes-destroyed objects n a o h here =
    let gone : size_at (upd objects a none) a ≡ 0 = ap size_of (upd_self objects a none) in
    let sum = sizes-put objects (upd objects a none) n a h λ x e. upd_ne objects a x none e in
    omega (arith, sum, gone, ap size_of here)

module _ {Q : Type 0} (calls : QueueCalls Q) (laws : QueueLaws calls) where
  -- The queue holds what the map holds; no object is held twice, neither in the queue nor among the
  -- pending ones; none of them is destroyed; and the water mark is the sum of the sizes of all objects
  -- that are not destroyed.
  pub record IsManager (m : CacheManager Q) (n : ℕ) (es : ℕ → ℕ × ℕ) : Type 0 where
    pub queue : laws.IsQueue m.priority_queue n es
    pub mapped : (k : ℕ) → k < n → m.cache_map (es k).0 ≡ some (es k).1
    pub found : (key a : ℕ) → m.cache_map key ≡ some a → (k : ℕ) × (k < n) × (es k ≡ (key, a))
    pub apart : (j k : ℕ) → j < k → k < n → (es j).1 ≢ (es k).1
    pub live : (k : ℕ) → k < n → IsLive m.objects (es k).1
    pub young : (k : ℕ) → k < n → (0 < (es k).1) × ((es k).1 < m.fresh)
    pub waiting : Each (λ a. IsLive m.objects a × (0 < a) × (a < m.fresh)) m.pending_list
    pub distinct : Distinct m.pending_list
    pub separate : (k : ℕ) → k < n → Each (λ a. a ≢ (es k).1) m.pending_list
    pub started : 0 < m.fresh
    pub unborn : (a : ℕ) → m.fresh ≤ a → m.objects a ≡ none
    pub total : m.water_mark ≡ sizes (size_at m.objects) m.fresh
    pub bound :
        (m.water_mark ≤ m.high_water_mark) ⊎ (m.water_mark ≤ m.low_water_mark + m.cobj_max_size)
    pub limits :
        (m.high_water_mark + m.cobj_max_size < 2 ^ 64)
        × (m.low_water_mark + m.cobj_max_size + m.cobj_max_size < 2 ^ 64)
