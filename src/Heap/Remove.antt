-- ===== src/Heap/Remove.antt =====
-- ndk/heap.h: the three ways to take an item out, pop(), pop(int) and erase.
use cute_ndk.Base.{
  ℕ, ◌+◌, ◌-◌, ◌<◌, ◌≡◌, ◌≢◌, ◌↔◌, refl, Bool, true, false, Option, none, some, ok, ==_refl, ◌==◌,
  arith, Returns, returns, Returns-if, Returns-bind,
}
use mathlib.Core.Path.{subst}
use native.Mathlib.Decide.{ℕ_discrete}
use cute_ndk.Base.Array.{upd, load-ok}
use cute_ndk.Base.Int.{pos, negsuc}
use cute_ndk.Base.Order.{IsOrder}
use cute_ndk.Heap.{Heap, pop, take_at, pop_at, erase}
use cute_ndk.Heap.Order.{parent, UpInv, DownInv, irrefl, root_first}
use cute_ndk.Heap.Places.{Has, IsPlaced-injective}
use cute_ndk.Heap.Ready.{id, Ready, Sifted, item_at-ok}
use cute_ndk.Heap.Valid.{Holds, IsValid, Sifted-IsValid, find_item}
use cute_ndk.Heap.Up.{shift_up_restores}
use cute_ndk.Heap.Down.{shift_down_restores}

-- A valid heap with exactly one item less.
pub record Removed (before : ℕ → ℕ → Bool) (h : Heap) (item : ℕ) (h' : Heap) : Type 0 where
  pub valid : IsValid before h'
  pub size : h'.size + 1 ≡ h.size
  pub max : h'.max_size ≡ h.max_size
  pub items : (p : ℕ) → Holds h' p ↔ (Holds h p × (p ≢ item))

module _ {before : ℕ → ℕ → Bool} (order : IsOrder before) (h : Heap) (i : ℕ) where
  -- The heap without its last cell, whose item goes to the place `i`.
  abbrev rest : Heap
  rest = record h { size = h.size - 1 }

  abbrev last : ℕ
  last = h.cells.at (h.size - 1)

  module _ (v : IsValid before h) (p : i < h.size) where
    apart : (c d : ℕ) → c < h.size → d < h.size → c ≢ d → h.cells.at c ≢ h.cells.at d
    apart = IsPlaced-injective id h.size h.cells.at h.heap_idx v.placed

    rest-Ready : Ready rest i last
    rest-Ready = record {
      room = omega (arith, v.room, v.cap);
      inside = omega (arith, v.room, v.cap);
      real = v.real (h.size - 1) (omega arith);
      others = λ c q r. v.real c (omega arith);
      hole = record {
        placed = λ c q r. ground (arith, v.placed c);
        own = λ c q r. ground (arith, apart c (h.size - 1));
      };
    }

    rest-Has :
        (x : ℕ) → Has (h.size - 1) (upd h.cells.at i last) x ↔ (Holds h x × (x ≢ h.cells.at i))
    rest-Has x = (down, up)
      where
        down : Has (h.size - 1) (upd h.cells.at i last) x → Holds h x × (x ≢ h.cells.at i)
        down (c, q, e) = elim (ℕ_discrete c i) [
          | yes a ↦ ((h.size - 1, omega arith, ground arith), ground (arith, apart (h.size - 1) i))
          | no a ↦ ((c, omega arith, ground arith), ground (arith, apart c i))
        ]

        up : Holds h x × (x ≢ h.cells.at i) → Has (h.size - 1) (upd h.cells.at i last) x
        up ((c, q, e), r) = elim (ℕ_discrete c (h.size - 1)) [
          | yes a ↦ (i, ground arith, ground arith)
          | no a ↦ (c, omega arith, ground arith)
        ]

    -- The last item does not stand before the one above `i`.
    rest-DownInv :
        before last (h.cells.at (parent i)) ≡ false
        → DownInv before (h.size - 1) (upd h.cells.at i last) i
    rest-DownInv b = record {
      edges = λ c q r s. ground (arith, v.heap c);
      bridged = λ c q r s t. ground (
        arith,
        v.heap c,
        v.heap i,
        order.trans (h.cells.at (parent i)) (h.cells.at i) (h.cells.at c),
      );
    }

    rest-UpInv :
        before last (h.cells.at (parent i)) ≡ true
        → i < h.size - 1
        → UpInv before (h.size - 1) (upd h.cells.at i last) i
    rest-UpInv b l = record {
      edges = λ c q r s. ground (
        arith,
        v.heap c,
        v.heap i,
        order.asym last (h.cells.at (parent i)),
        order.trans (h.cells.at (parent i)) (h.cells.at i) (h.cells.at c),
        order.trans last (h.cells.at (parent i)) (h.cells.at c),
      );
      bridged = λ c q r s t. ground (
        arith,
        v.heap c,
        v.heap i,
        order.trans (h.cells.at (parent i)) (h.cells.at i) (h.cells.at c),
      );
    }

    -- The moved item stands before the one above `i` only where `i` is not the last place.
    before_above : before last (h.cells.at (parent i)) ≡ true → (0 < i) × (i < h.size - 1)
    before_above b =
        ground (
          arith,
          v.heap i,
          irrefl order last,
          root_first order h.size h.cells.at v.heap (h.size - 1),
        )

    Sifted-Removed : (h' : Heap) → Sifted before rest i last h' → Removed before h (h.cells.at i) h'
    Sifted-Removed h' s = record {
      valid = Sifted-IsValid before rest i last rest-Ready h' (omega (arith, v.room)) v.cap s;
      size = omega (arith, s.size);
      max = s.max;
      items = λ x.
          let (there, back) = rest-Has x in
          rw s.size (λ y. there ((s.same x).0 y), λ y. (s.same x).1 (back y));
    }

    -- pop(int) at the place of an item.
    take_at_removes :
        Returns
          (λ (h', r). (r ≡ h.cells.at i) × Removed before h (h.cells.at i) h')
          (take_at before h i)
    unfolding take_at
    take_at_removes =
        rw
          (
            item_at-ok h i (omega (arith, v.cap, v.room)) (v.real i p),
            v.placed i p,
            ==_refl i,
            item_at-ok rest (parent i) (omega (arith, v.cap, v.room))
                (v.real (parent i) (omega arith)),
            item_at-ok rest (h.size - 1) (omega (arith, v.cap, v.room))
                (v.real (h.size - 1) (omega arith)),
          )
          (Returns-bind
            (Returns-if (before last (h.cells.at (parent i)))
              (λ b.
                let (low, inside) = before_above b in
                shift_up_restores order rest i last inside rest-Ready (rest-UpInv b inside))
              (λ b.
                shift_down_restores order rest i last (omega arith) rest-Ready (rest-DownInv b)))
            λ h' s. returns (refl, Sifted-Removed h' s))

-- What pop() returns: an item that no other stands before, and a valid heap of the others.
pub record Popped (before : ℕ → ℕ → Bool) (h : Heap) (r : Heap × ℕ) : Type 0 where
  pub held : Holds h r.1
  pub first : (p : ℕ) → Holds h p → before p r.1 ≡ false
  pub removed : Removed before h r.1 r.0

module _ {before : ℕ → ℕ → Bool} (order : IsOrder before) (h : Heap) (v : IsValid before h) where
  root-DownInv :
      0 < h.size → DownInv before (h.size - 1) (upd h.cells.at 0 (h.cells.at (h.size - 1))) 0
  root-DownInv p = record {
    edges = λ c q r s. ground (arith, v.heap c);
    bridged = λ c q r s t. absurd (omega arith);
  }

  -- pop() on a heap that is not empty takes out exactly one item, and no item of the heap stands
  -- before it; the heap stays valid.
  pub pop_correct : 0 < h.size → Returns (Popped before h) (pop before h)
  unfolding pop
  pop_correct p =
      Returns-if (h.size == 0) (λ e. absurd (ground arith))
        λ _.
          rw
            (
              load-ok h.cells 0 (omega (arith, v.cap, v.room)),
              load-ok h.cells (h.size - 1) (omega (arith, v.cap, v.room)),
            )
            (Returns-bind
              (shift_down_restores order (rest order h 0) 0 (last order h 0) (omega arith)
                (rest-Ready order h 0 v p) (root-DownInv p))
              λ h' s. returns (record {
                held = (0, p, refl);
                first = λ x (c, q, e). rw (← e) (root_first order h.size h.cells.at v.heap c q);
                removed = Sifted-Removed order h 0 v p h' s;
              }))

  -- pop(int) at the index that an item of the heap keeps takes out exactly that item, and the heap
  -- stays valid.
  pub pop_at_correct :
      (item : ℕ)
      → Holds h item
      → Returns
          (λ (h', r). (r ≡ item) × Removed before h item h')
          (pop_at before h (h.heap_idx item))
  unfolding pop_at
  pop_at_correct item held =
      let (i, p, e, x) = find_item before h item v held in
      rw (x, pop_at)
        (Returns-if (h.size == 0) (λ z. absurd (ground arith))
          λ _.
            subst (λ x. Returns (λ (h', r). (r ≡ x) × Removed before h x h') (take_at before h i)) e
              (take_at_removes order h i v p))

  -- erase of an item of the heap reports success, takes out exactly that item, and keeps the heap
  -- valid.
  pub erase_correct :
      (item : ℕ)
      → Holds h item
      → Returns (λ (h', r). (r ≡ pos 0) × Removed before h item h') (erase before h item)
  unfolding erase
  erase_correct item held =
      let (i, p, e, x) = find_item before h item v held in
      let real : item ≢ 0 = ground (arith, v.real i p) in
      Returns-if (item == 0) (λ z. absurd (ground arith))
        λ _.
          Returns-bind (pop_at_correct item held)
            λ (h', r) (same, removed). returns (ground arith, removed)

pop_at_empty :
    (before : ℕ → ℕ → Bool) (h : Heap) (i : Option ℕ) → h.size ≡ 0 → pop_at before h i ≡ ok (h, 0)
unfolding pop_at
pop_at_empty before h none e = refl
pop_at_empty before h (some i) e = ground arith

-- On an empty heap pop(), pop(int) and erase change nothing and report failure, for every index
-- and every item.
pub remove_empty :
    (before : ℕ → ℕ → Bool) (h : Heap) (i : Option ℕ) (item : ℕ)
    → h.size ≡ 0
    → (pop before h ≡ ok (h, 0))
      × (pop_at before h i ≡ ok (h, 0))
      × (erase before h item ≡ ok (h, negsuc 0))
unfolding pop erase
remove_empty before h i item e = (
  ground arith,
  pop_at_empty before h i e,
  rw (pop_at_empty before h (h.heap_idx item) e) (ground arith),
)
