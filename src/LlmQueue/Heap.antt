-- ===== src/LlmQueue/Heap.antt =====
-- The heap of the queue: what its operations keep, and that `heapify` puts its entries in order.
use reportportal_analyzer_ng.Prelude.{
  ◌==◌, Bool-cases, All, ℕ, ◌<◌, ◌≡◌, inl, inr, true, false, Option, none, some, List, [], ◌∷◌,
  arith,
}
use reportportal_analyzer_ng.LlmQueue.{
  Entry, before, heappush, carry, last_first, swap_out, heapify, remove_seq, removal,
}

module _ {P : Type 0} where
  abbrev pub IsSorted : List (Entry P) → Type 0
  IsSorted [] = Unit
  IsSorted (e ∷ rest) = All (λ f. before e f ≡ true) rest × IsSorted rest

module _ {P : Type 0} (Q : Entry P → Type 0) where
  pub All-heappush : (e : Entry P) (h : List (Entry P)) → Q e → All Q h → All Q (heappush e h)
  unfolding heappush
  All-heappush e [] q a = (q, tt)
  All-heappush e (f ∷ rest) q a = elim (Bool-cases (before e f)) [
    | inl b ↦ rw b (q, a)
    | inr b ↦ rw b (a.0, All-heappush e rest q a.1)
  ]

  pub All-carry : (e : Entry P) (h : List (Entry P)) → Q e → All Q h → All Q (carry e h)
  All-carry e [] q a = (q, tt)
  All-carry e (f ∷ h) q a = (a.0, (q, a.1))

  pub All-last_first : (h : List (Entry P)) → All Q h → All Q (last_first h)
  unfolding last_first
  All-last_first [] a = tt
  All-last_first (e ∷ h) a = All-carry e (last_first h) a.0 (All-last_first h a.1)

  pub All-swap_out : (s : ℕ) (h : List (Entry P)) → All Q h → All Q (swap_out s h)
  unfolding swap_out
  All-swap_out s [] a = a
  All-swap_out s (e ∷ rest) a = elim (Bool-cases (e.seq == s)) [
    | inl b ↦ rw b (All-last_first rest a.1)
    | inr b ↦ rw b (a.0, All-swap_out s rest a.1)
  ]

  pub All-heapify : (h : List (Entry P)) → All Q h → All Q (heapify h)
  unfolding heapify
  All-heapify [] a = tt
  All-heapify (e ∷ h) a = All-heappush e (heapify h) a.0 (All-heapify h a.1)

  pub All-remove_seq : (s : ℕ) (h : List (Entry P)) → All Q h → All Q (remove_seq s h)
  unfolding remove_seq
  All-remove_seq s h a = All-heapify (swap_out s h) (All-swap_out s h a)

  pub All-removal : (o : Option ℕ) (h : List (Entry P)) → All Q h → All Q (removal o h)
  All-removal none h a = a
  All-removal (some s) h a = All-remove_seq s h a

module _ {P : Type 0} where
  -- the numbers of two entries differ
  abbrev pub IsOther : Entry P → Entry P → Type 0
  IsOther e f = (f.seq == e.seq) ≡ false

  abbrev pub IsDistinct : List (Entry P) → Type 0
  IsDistinct [] = Unit
  IsDistinct (e ∷ rest) = All (IsOther e) rest × IsDistinct rest

  pub IsOther-sym : (e f : Entry P) → IsOther e f → IsOther f e
  IsOther-sym e f h = ground (arith, h)

  pub heappush-IsDistinct :
      (e : Entry P) (h : List (Entry P))
      → All (IsOther e) h
      → IsDistinct h
      → IsDistinct (heappush e h)
  unfolding heappush
  heappush-IsDistinct e [] a d = (tt, tt)
  heappush-IsDistinct e (f ∷ rest) a d = elim (Bool-cases (before e f)) [
    | inl b ↦ rw b (a, d)
    | inr b ↦ rw b (
      All-heappush (IsOther f) e rest (IsOther-sym e f a.0) d.0,
      heappush-IsDistinct e rest a.1 d.1,
    )
  ]

  pub carry-IsDistinct :
      (e : Entry P) (h : List (Entry P)) → All (IsOther e) h → IsDistinct h → IsDistinct (carry e h)
  carry-IsDistinct e [] a d = (tt, tt)
  carry-IsDistinct e (f ∷ h) a d = ((IsOther-sym e f a.0, d.0), (a.1, d.1))

  pub last_first-IsDistinct : (h : List (Entry P)) → IsDistinct h → IsDistinct (last_first h)
  unfolding last_first
  last_first-IsDistinct [] d = tt
  last_first-IsDistinct (e ∷ h) d =
      carry-IsDistinct e (last_first h) (All-last_first (IsOther e) h d.0)
        (last_first-IsDistinct h d.1)

  pub swap_out-IsDistinct : (s : ℕ) (h : List (Entry P)) → IsDistinct h → IsDistinct (swap_out s h)
  unfolding swap_out
  swap_out-IsDistinct s [] d = d
  swap_out-IsDistinct s (e ∷ rest) d = elim (Bool-cases (e.seq == s)) [
    | inl b ↦ rw b (last_first-IsDistinct rest d.1)
    | inr b ↦ rw b (All-swap_out (IsOther e) s rest d.0, swap_out-IsDistinct s rest d.1)
  ]

  pub heapify-IsDistinct : (h : List (Entry P)) → IsDistinct h → IsDistinct (heapify h)
  unfolding heapify
  heapify-IsDistinct [] d = tt
  heapify-IsDistinct (e ∷ h) d =
      heappush-IsDistinct e (heapify h) (All-heapify (IsOther e) h d.0) (heapify-IsDistinct h d.1)

  pub removal-IsDistinct :
      (o : Option ℕ) (h : List (Entry P)) → IsDistinct h → IsDistinct (removal o h)
  unfolding remove_seq
  removal-IsDistinct none h d = d
  removal-IsDistinct (some s) h d = heapify-IsDistinct (swap_out s h) (swap_out-IsDistinct s h d)

  pub before_trans : (e f g : Entry P) → before e f ≡ true → before f g ≡ true → before e g ≡ true
  before_trans e f g h k = ground arith

  pub before-total : (e f : Entry P) → before e f ≡ false → IsOther e f → before f e ≡ true
  before-total e f h k = ground arith

  pub All-before_trans :
      (e f : Entry P) (h : List (Entry P))
      → before e f ≡ true
      → All (λ g. before f g ≡ true) h
      → All (λ g. before e g ≡ true) h
  All-before_trans e f [] b a = tt
  All-before_trans e f (g ∷ rest) b a = (before_trans e f g b a.0, All-before_trans e f rest b a.1)

  pub heappush-IsSorted :
      (e : Entry P) (h : List (Entry P)) → All (IsOther e) h → IsSorted h → IsSorted (heappush e h)
  unfolding heappush
  heappush-IsSorted e [] a s = (tt, tt)
  heappush-IsSorted e (f ∷ rest) a s = elim (Bool-cases (before e f)) [
    | inl b ↦ rw b ((b, All-before_trans e f rest b s.0), s)
    | inr b ↦ rw b (
      All-heappush (λ g. before f g ≡ true) e rest (before-total e f b a.0) s.0,
      heappush-IsSorted e rest a.1 s.1,
    )
  ]

  pub heapify-IsSorted : (h : List (Entry P)) → IsDistinct h → IsSorted (heapify h)
  unfolding heapify
  heapify-IsSorted [] d = tt
  heapify-IsSorted (e ∷ h) d =
      heappush-IsSorted e (heapify h) (All-heapify (IsOther e) h d.0) (heapify-IsSorted h d.1)

  pub removal-IsSorted :
      (o : Option ℕ) (h : List (Entry P)) → IsDistinct h → IsSorted h → IsSorted (removal o h)
  unfolding remove_seq
  removal-IsSorted none h d s = s
  removal-IsSorted (some k) h d s = heapify-IsSorted (swap_out k h) (swap_out-IsDistinct k h d)

  pub All-IsOther :
      (e : Entry P) (h : List (Entry P)) → All (λ f. f.seq < e.seq) h → All (IsOther e) h
  All-IsOther e [] a = tt
  All-IsOther e (f ∷ h) a = (ground (arith, a.0), All-IsOther e h a.1)
