-- ===== src/Heap/Insert.antt =====
-- ndk/heap.h: push.
use cute_ndk.Base.{
  ℕ, ◌+◌, ◌<◌, ◌≡◌, ◌≢◌, ◌↔◌, ◌⊎◌, refl, Bool, arith, leb, Returns, returns, Returns-if,
  Returns-bind,
}
use cute_ndk.Base.Array.{upd}
use cute_ndk.Base.Int.{ℤ, pos}
use cute_ndk.Base.Order.{IsOrder}
use cute_ndk.Heap.{Heap, push}
use cute_ndk.Heap.Order.{UpInv}
use cute_ndk.Heap.Places.{Has-grow}
use cute_ndk.Heap.Ready.{Ready}
use cute_ndk.Heap.Valid.{Holds, IsValid, Sifted-IsValid}
use cute_ndk.Heap.Up.{shift_up_restores}

-- What push returns for a heap with room: success, and a valid heap with exactly one more item.
pub record Pushed (before : ℕ → ℕ → Bool) (h : Heap) (item : ℕ) (r : Heap × ℤ) : Type 0 where
  pub status : r.1 ≡ pos 0
  pub valid : IsValid before r.0
  pub size : r.0.size ≡ h.size + 1
  pub max : r.0.max_size ≡ h.max_size
  pub items : (p : ℕ) → Holds r.0 p ↔ (Holds h p ⊎ (p ≡ item))

module _ {before : ℕ → ℕ → Bool} (order : IsOrder before) (h : Heap) (item : ℕ) where
  abbrev grown : Heap
  grown = record h { size = h.size + 1 }

  grown-Ready :
      IsValid before h → h.size < h.max_size → item ≢ 0 → ¬ Holds h item → Ready grown h.size item
  grown-Ready v p q r = record {
    room = omega (arith, v.cap);
    inside = omega (arith, v.cap);
    real = q;
    others = λ c s t. v.real c (omega arith);
    hole = record {
      placed = λ c s t. ground (arith, v.placed c);
      own = λ c s t e. r (c, omega arith, ground arith);
    };
  }

  grown-UpInv : IsValid before h → UpInv before (h.size + 1) (upd h.cells.at h.size item) h.size
  grown-UpInv v = record {
    edges = λ c p q r. ground (arith, v.heap c);
    bridged = λ c p q r s. absurd (omega arith);
  }

  -- push adds exactly the item to a heap with room, and keeps the heap valid.
  pub push_correct :
      IsValid before h
      → h.size < h.max_size
      → item ≢ 0
      → ¬ Holds h item
      → Returns (Pushed before h item) (push before h item)
  unfolding push
  push_correct v p q r =
      Returns-if (leb h.max_size h.size) (λ e. absurd (ground arith))
        λ _.
          let ready = grown-Ready v p q r in
          Returns-bind
            (shift_up_restores order grown h.size item (omega arith) ready (grown-UpInv v))
            λ h' s. returns (record {
              status = refl;
              valid = Sifted-IsValid before grown h.size item ready h' (omega arith) v.cap s;
              size = s.size;
              max = s.max;
              items = λ x.
                  let (there, back) = Has-grow h.size h.cells.at item x in
                  rw s.size (λ y. there ((s.same x).0 y), λ y. (s.same x).1 (back y));
            })
