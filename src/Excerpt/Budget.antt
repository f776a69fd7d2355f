-- ===== src/Excerpt/Budget.antt =====
-- The loop of `middle_out` ends, and what its result keeps.
use reportportal_analyzer_ng.Prelude.{
  ltb, leb, Bool-cases, ℕ, zero, suc, ◌+◌, ◌≤◌, ◌<◌, ◌≡◌, refl, ◌⊎◌, inl, inr, Bool, true, false,
  Option, none, some, arith,
}
use reportportal_analyzer_ng.Text.{Text}
use reportportal_analyzer_ng.Excerpt.{
  head_lines, tail_lines, estimate_tokens, lines_of, root_block_bounds, Window, size_of, shrunk,
  fits, or_shown, shrink, first_window, shown_lines, middle_out,
}

-- the turns that are left
abbrev turns : Window → ℕ
turns w = w.head + w.tail + w.root

-- The windows give way in order: the tail, then the head, then the block down to its first line.
abbrev pub IsWindow : ℕ → Window → Type 0
IsWindow size w =
    (w.head ≤ head_lines)
    × (w.tail ≤ tail_lines)
    × (w.root ≤ size)
    × (w.head < head_lines → w.tail ≡ 0)
    × (w.root < size → (w.head ≡ 0) × (w.tail ≡ 0))
    × (1 ≤ size → 1 ≤ w.root)

-- no window can give way any more
abbrev pub IsLeast : Window → Type 0
IsLeast w = (w.head ≡ 0) × (w.tail ≡ 0) × (w.root ≤ 1)

Shrunk : ℕ → Window → Option Window → Type 0
Shrunk size w none = IsLeast w
Shrunk size w (some v) = IsWindow size v × (turns v + 1 ≡ turns w)

shrunk_lem : (size : ℕ) (w : Window) → IsWindow size w → Shrunk size w (shrunk w)
unfolding Shrunk
shrunk_lem size w (a, b, c, d, f, g) = elim (Bool-cases (ltb 0 w.tail)) [
  | inl e ↦
      let some_tail : 1 ≤ w.tail = ground (arith, e) in
      rw e (
        (
          a,
          omega (arith, b),
          c,
          λ l. omega (arith, d l),
          λ l. ((f l).0, omega (arith, (f l).1)),
          g,
        ),
        omega (arith, some_tail),
      )
  | inr e ↦
      let no_tail : w.tail ≡ 0 = ground (arith, e) in
      elim (Bool-cases (ltb 0 w.head)) [
        | inl k ↦
            let some_head : 1 ≤ w.head = ground (arith, k) in
            rw (e, k)
              (
                (omega (arith, a), b, c, λ l. no_tail, λ l. (omega (arith, (f l).0), no_tail), g),
                omega (arith, some_head),
              )
        | inr k ↦
            let no_head : w.head ≡ 0 = ground (arith, k) in
            elim (Bool-cases (ltb 1 w.root)) [
              | inl j ↦
                  let some_root : 2 ≤ w.root = ground (arith, j) in
                  rw (e, k, j)
                    (
                      (
                        a,
                        b,
                        omega (arith, c),
                        d,
                        λ l. (no_head, no_tail),
                        λ l. omega (arith, some_root),
                      ),
                      omega (arith, some_root),
                    )
              | inr j ↦
                  let least : w.root ≤ 1 = ground (arith, j) in
                  rw (e, k, j) (no_head, no_tail, least)
            ]
      ]
]

module _ (max_tokens : ℕ) (show : Window → Text) (size : ℕ) where
  -- the text of a window that fits, or of the least one
  abbrev Ends : Option Text → Type 0
  Ends o =
      (w : Window) × (o ≡ some (show w))
      × IsWindow size w
      × ((estimate_tokens (show w) ≤ max_tokens) ⊎ IsLeast w)

  or_shown-Ends :
      (w : Window) (o : Option Window) (next : Window → Option Text)
      → IsWindow size w
      → Shrunk size w o
      → ((v : Window) → IsWindow size v → turns v + 1 ≡ turns w → Ends (next v))
      → Ends (or_shown max_tokens show w o next)
  unfolding Shrunk
  or_shown-Ends w none next h s f = (w, refl, h, inr s)
  or_shown-Ends w (some v) next h s f = f v s.0 s.1

  shrink-Ends :
      (fuel : ℕ) (w : Window)
      → IsWindow size w
      → turns w < fuel
      → Ends (shrink max_tokens show fuel w)
  unfolding shrink
  shrink-Ends zero w h l = let never : ⊥ = omega (arith, l) in absurd never
  shrink-Ends (suc fuel) w h l = elim (Bool-cases (fits max_tokens show w)) [
    | inl e ↦
        let small : estimate_tokens (show w) ≤ max_tokens = ground (arith, e) in
        rw e (w, refl, h, inl small)
    | inr e ↦ rw e (
        or_shown-Ends w (shrunk w) (shrink max_tokens show fuel) h (shrunk_lem size w h)
          (λ v k t. shrink-Ends fuel v k (omega (arith, t, l))))
  ]

-- a window that fits gives way to none
shrink-fits :
    (max_tokens : ℕ) (show : Window → Text) (fuel : ℕ) (w : Window)
    → fits max_tokens show w ≡ true
    → 0 < fuel
    → shrink max_tokens show fuel w ≡ some (show w)
unfolding shrink
shrink-fits max_tokens show zero w h l = absurd (omega (arith, l))
shrink-fits max_tokens show (suc fuel) w h l = rw h refl

-- The excerpt is found within the turns that the windows allow. A text that fits is left as it is. Of
-- any other the result shows the lines of a window that fits, or of the least window, one line of the
-- block and nothing else; it keeps the first line of the block, and the tail gives way before the head
-- and the head before the block. If the full windows fit, the result shows them.
pub middle_out_lem :
    (caused_by exception : Text → Bool) (text : Text) (max_tokens : ℕ)
    → let lines = lines_of text in
      let block = root_block_bounds caused_by exception lines in
      (estimate_tokens text ≤ max_tokens
        → middle_out caused_by exception text max_tokens ≡ some text)
      × (max_tokens < estimate_tokens text
          → (w : Window) × (middle_out caused_by exception text max_tokens
              ≡ some (shown_lines lines block w))
            × IsWindow (size_of block) w
            × ((estimate_tokens (shown_lines lines block w) ≤ max_tokens) ⊎ IsLeast w))
      × (max_tokens < estimate_tokens text
          → estimate_tokens (shown_lines lines block (first_window block)) ≤ max_tokens
          → middle_out caused_by exception text max_tokens
            ≡ some (shown_lines lines block (first_window block)))
unfolding middle_out
middle_out_lem caused_by exception text max_tokens =
    let lines = lines_of text in
    let block = root_block_bounds caused_by exception lines in
    (
      λ h.
          let yes : leb (estimate_tokens text) max_tokens ≡ true = ground (arith, h) in rw yes refl,
      λ h.
          let no : leb (estimate_tokens text) max_tokens ≡ false = ground (arith, h) in
          let start : IsWindow (size_of block) (first_window block) = (
            omega arith,
            omega arith,
            omega arith,
            λ l. omega (arith, l),
            λ l. (omega (arith, l), omega (arith, l)),
            λ l. l,
          ) in
          rw no (
            shrink-Ends max_tokens (shown_lines lines block) (size_of block)
              (head_lines + tail_lines + size_of block + 1) (first_window block) start
              (omega arith)),
      λ h k.
          let no : leb (estimate_tokens text) max_tokens ≡ false = ground (arith, h) in
          rw no (
            shrink-fits max_tokens (shown_lines lines block)
              (head_lines + tail_lines + size_of block + 1) (first_window block) (ground (arith, k))
              (omega arith)),
    )
