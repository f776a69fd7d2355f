-- ===== src/Migrate/Sql/Script.antt =====
-- Scanning the text of a piece keeps what the piece means.
use reportportal_analyzer_ng.Prelude.{
  ◌==◌, Bool-cases, length, all, is_empty, length-append, ℕ, ◌≤◌, ◌≡◌, refl, sym, ap, ◌∙◌, inl, inr,
  true, false, not, some, List, [], ◌∷◌, ◌++◌, arith,
}
use mathlib.Core.List.{append_assoc, append-nil}
use reportportal_analyzer_ng.Text.{Text, strip}
use reportportal_analyzer_ng.Migrate.Sql.{
  Scan, starts_with, to_newline, is_tag_char, tag_rest, starts_quote, starts_dash, close_statement,
  in_dollar, in_single, after_dollar, at_top, scan, top, with_tail, split_statements,
}
use reportportal_analyzer_ng.Migrate.Sql.Pieces.{
  Piece, plain, dash, semicolon, literal, comment, dollar, doubled, dollar_text, source, source_all,
  is_opaque, is_plain, is_ok, is_script, put_statement, statements_of,
}

abbrev skipping : ℕ → Scan → Scan
skipping n st = record st { skip = n }

abbrev quoted : List Text → Text → Scan
quoted ss b = record (top ss b) { in_single_quote = true }

abbrev tagged : Text → List Text → Text → Scan
tagged tag ss b = record (top ss b) { dollar_tag = some tag }

scan-skipping :
    (st : Scan) (u rest : Text)
    → scan (skipping (length u) st) (u ++ rest) ≡ scan (skipping 0 st) rest
unfolding scan
scan-skipping st [] rest = refl
scan-skipping st (c ∷ u) rest = scan-skipping st u rest

scan-plain :
    (ss : List Text) (b : Text) (c : ℕ) (rest : Text)
    → is_plain c ≡ true
    → scan (top ss b) (c ∷ rest) ≡ scan (top ss (b ++ c ∷ [])) rest
unfolding scan
scan-plain ss b c rest h =
    let e : at_top (top ss b) c rest ≡ top ss (b ++ c ∷ []) = ground (arith, h) in
    ap (λ s. scan s rest) e

scan-quoted :
    (ss : List Text) (b body rest : Text)
    → starts_quote rest ≡ false
    → scan (quoted ss b) (doubled body ++ (b'\'' ∷ rest))
      ≡ scan (top ss (b ++ (doubled body ++ b'\'' ∷ []))) rest
unfolding scan
scan-quoted ss b [] rest h =
    let e : in_single (quoted ss b) b'\'' rest ≡ top ss (b ++ b'\'' ∷ []) = ground (arith, h) in
    ap (λ s. scan s rest) e
scan-quoted ss b (c ∷ body) rest h = elim (Bool-cases (c == b'\'')) [
  | inl e ↦ rw (
    e,
    scan-quoted ss (b ++ b'\'' ∷ b'\'' ∷ []) body rest h,
    append_assoc b (b'\'' ∷ b'\'' ∷ []) (doubled body ++ b'\'' ∷ []),
  )
  | inr e ↦
      let k : in_single (quoted ss b) c (doubled body ++ (b'\'' ∷ rest)) ≡ quoted ss (b ++ c ∷ []) =
        ground (arith, e) in
      rw e (
        ap (λ s. scan s (doubled body ++ (b'\'' ∷ rest))) k
        ∙ scan-quoted ss (b ++ c ∷ []) body rest h
        ∙ ap (λ t. scan (top ss t) rest) (append_assoc b (c ∷ []) (doubled body ++ b'\'' ∷ [])))
]

starts_with_refl : (t rest : Text) → starts_with t (t ++ rest) ≡ true
starts_with_refl [] rest = refl
starts_with_refl (c ∷ t) rest = ground (arith, starts_with_refl t rest)

starts_with-append : (t u v : Text) → length t ≤ length u → starts_with t (u ++ v) ≡ starts_with t u
starts_with-append [] u v h = refl
starts_with-append (p ∷ t) [] v h = ground (arith, h)
starts_with-append (p ∷ t) (c ∷ u) v h = ground (arith, starts_with-append t u v, h)

scan-tagged :
    (ss : List Text) (b name body rest : Text)
    → is_opaque (b'$' ∷ name) body ≡ true
    → scan (tagged (b'$' ∷ name) ss b) (body ++ (b'$' ∷ name ++ rest))
      ≡ scan (top ss (b ++ (body ++ b'$' ∷ name))) rest
unfolding scan
scan-tagged ss b name [] rest h =
    let e : in_dollar (b'$' ∷ name) (tagged (b'$' ∷ name) ss b) b'$' (name ++ rest)
        ≡ skipping (length name) (top ss (b ++ b'$' ∷ name)) =
      ground (arith, starts_with_refl (b'$' ∷ name) rest) in
    ap (λ s. scan s (name ++ rest)) e ∙ scan-skipping (top ss (b ++ b'$' ∷ name)) name rest
scan-tagged ss b name (c ∷ body) rest h =
    let tag = b'$' ∷ name in
    let n : starts_with tag (c ∷ body ++ tag) ≡ false = ground (arith, h) in
    let m : starts_with tag ((c ∷ body ++ tag) ++ rest) ≡ false =
      starts_with-append tag (c ∷ body ++ tag) rest (omega (arith, length-append body tag)) ∙ n in
    let m2 : starts_with tag (c ∷ body ++ (tag ++ rest)) ≡ false =
      ap (λ u. starts_with tag (c ∷ u)) (sym (append_assoc body tag rest)) ∙ m in
    let e : in_dollar tag (tagged tag ss b) c (body ++ (tag ++ rest))
        ≡ tagged tag ss (b ++ c ∷ []) =
      ground (arith, m2) in
    ap (λ s. scan s (body ++ (tag ++ rest))) e
    ∙ scan-tagged ss (b ++ c ∷ []) name body rest (ground (arith, h))
    ∙ ap (λ t. scan (top ss t) rest) (append_assoc b (c ∷ []) (body ++ tag))

tag_rest-name :
    (name rest : Text)
    → all is_tag_char name ≡ true
    → tag_rest (name ++ (b'$' ∷ rest)) ≡ some (name ++ b'$' ∷ [])
tag_rest-name [] rest h = refl
tag_rest-name (c ∷ name) rest h = ground (arith, tag_rest-name name rest, h)

to_newline-body :
    (body rest : Text)
    → all (λ c. not (c == b'\n')) body ≡ true
    → to_newline (body ++ (b'\n' ∷ rest)) ≡ length body
to_newline-body [] rest h = refl
to_newline-body (c ∷ body) rest h = ground (arith, to_newline-body body rest, h)

scan-dollar :
    (ss : List Text) (b name body rest : Text)
    → is_ok (dollar name body) ≡ true
    → scan (top ss b) (dollar_text name body ++ rest)
      ≡ scan (top ss (b ++ dollar_text name body)) rest
unfolding scan
scan-dollar ss b name body rest h =
    let tag = name ++ b'$' ∷ [] in
    let t : (after : Text) → (b'$' ∷ tag) ++ after ≡ b'$' ∷ name ++ (b'$' ∷ after) =
      λ after. ap (λ u. b'$' ∷ u) (append_assoc name (b'$' ∷ []) after) in
    let whole : dollar_text name body ++ rest ≡ b'$' ∷ (tag ++ (body ++ (b'$' ∷ tag ++ rest))) =
      append_assoc (b'$' ∷ tag) (body ++ b'$' ∷ tag) rest
      ∙ ap (λ u. b'$' ∷ tag ++ u) (append_assoc body (b'$' ∷ tag) rest) in
    let found : tag_rest (tag ++ (body ++ (b'$' ∷ tag ++ rest))) ≡ some tag =
      ap tag_rest (append_assoc name (b'$' ∷ []) (body ++ (b'$' ∷ tag ++ rest)))
      ∙ tag_rest-name name (body ++ (b'$' ∷ tag ++ rest)) (ground (arith, h)) in
    let opens : at_top (top ss b) b'$' (tag ++ (body ++ (b'$' ∷ tag ++ rest)))
        ≡ skipping (length tag) (tagged (b'$' ∷ tag) ss (b ++ b'$' ∷ tag)) =
      ap (λ o. after_dollar o (top ss b)) found in
    ap (scan (top ss b)) whole
    ∙ ap (λ s. scan s (tag ++ (body ++ (b'$' ∷ tag ++ rest)))) opens
    ∙ scan-skipping (tagged (b'$' ∷ tag) ss (b ++ b'$' ∷ tag)) tag (body ++ (b'$' ∷ tag ++ rest))
    ∙ scan-tagged ss (b ++ b'$' ∷ tag) tag body rest (ground (arith, h))
    ∙ ap (λ u. scan (top ss u) rest) (append_assoc b (b'$' ∷ tag) (body ++ b'$' ∷ tag))

scan-comment :
    (ss : List Text) (b body rest : Text)
    → is_ok (comment body) ≡ true
    → scan (top ss b) (source (comment body) ++ rest) ≡ scan (top ss (b ++ b'\n' ∷ [])) rest
unfolding scan
scan-comment ss b body rest h =
    let whole : (body ++ b'\n' ∷ []) ++ rest ≡ body ++ (b'\n' ∷ rest) =
      append_assoc body (b'\n' ∷ []) rest in
    let skips : to_newline ((body ++ b'\n' ∷ []) ++ rest) ≡ length body =
      ap to_newline whole ∙ to_newline-body body rest h in
    ap (λ n. scan (skipping n (top ss b)) ((body ++ b'\n' ∷ []) ++ rest)) skips
    ∙ ap (scan (skipping (length body) (top ss b))) whole
    ∙ scan-skipping (top ss b) body (b'\n' ∷ rest)
    ∙ scan-plain ss b b'\n' rest refl

with_tail-put : (ss : List Text) (b : Text) → close_statement b ss ≡ ss ++ put_statement b []
with_tail-put ss b = elim (Bool-cases (is_empty (strip b))) [
  | inl e ↦ rw (e, append-nil) refl
  | inr e ↦ rw e refl
]

scan-dash :
    (ss : List Text) (b rest : Text)
    → starts_dash rest ≡ false
    → scan (top ss b) (b'-' ∷ rest) ≡ scan (top ss (b ++ b'-' ∷ [])) rest
unfolding scan
scan-dash ss b rest h =
    let e : at_top (top ss b) b'-' rest ≡ top ss (b ++ b'-' ∷ []) = ground (arith, h) in
    ap (λ s. scan s rest) e

scan-literal :
    (ss : List Text) (b body rest : Text)
    → starts_quote rest ≡ false
    → scan (top ss b) (source (literal body) ++ rest)
      ≡ scan (top ss (b ++ source (literal body))) rest
unfolding scan
scan-literal ss b body rest h =
    ap (scan (quoted ss (b ++ b'\'' ∷ []))) (append_assoc (doubled body) (b'\'' ∷ []) rest)
    ∙ scan-quoted ss (b ++ b'\'' ∷ []) body rest h
    ∙ ap (λ u. scan (top ss u) rest) (append_assoc b (b'\'' ∷ []) (doubled body ++ b'\'' ∷ []))

put_statement-after :
    (ss : List Text) (b : Text) (later : List Text)
    → close_statement b ss ++ later ≡ ss ++ put_statement b later
put_statement-after ss b later = elim (Bool-cases (is_empty (strip b))) [
  | inl e ↦ rw e refl
  | inr e ↦ rw e (append_assoc ss (strip b ∷ []) later)
]

with_tail-scan :
    (ss : List Text) (b : Text) (ps : List Piece)
    → is_script ps ≡ true
    → with_tail (scan (top ss b) (source_all ps)) ≡ ss ++ statements_of b ps
unfolding scan
with_tail-scan ss b [] h = with_tail-put ss b
with_tail-scan ss b (plain c ∷ ps) h =
    ap with_tail (scan-plain ss b c (source_all ps) (ground (arith, h)))
    ∙ with_tail-scan ss (b ++ c ∷ []) ps (ground (arith, h))
with_tail-scan ss b (dash ∷ ps) h =
    ap with_tail (scan-dash ss b (source_all ps) (ground (arith, h)))
    ∙ with_tail-scan ss (b ++ b'-' ∷ []) ps (ground (arith, h))
with_tail-scan ss b (semicolon ∷ ps) h =
    with_tail-scan (close_statement b ss) [] ps (ground (arith, h))
    ∙ put_statement-after ss b (statements_of [] ps)
with_tail-scan ss b (literal body ∷ ps) h =
    ap with_tail (scan-literal ss b body (source_all ps) (ground (arith, h)))
    ∙ with_tail-scan ss (b ++ source (literal body)) ps (ground (arith, h))
with_tail-scan ss b (comment body ∷ ps) h =
    ap with_tail (scan-comment ss b body (source_all ps) (ground (arith, h)))
    ∙ with_tail-scan ss (b ++ b'\n' ∷ []) ps (ground (arith, h))
with_tail-scan ss b (dollar name body ∷ ps) h =
    ap with_tail (scan-dollar ss b name body (source_all ps) (ground (arith, h)))
    ∙ with_tail-scan ss (b ++ dollar_text name body) ps (ground (arith, h))

-- A script of plain characters, single dashes, literals, dollar-quoted bodies, comments and semicolons
-- splits at exactly its semicolons: the text of the literals and of the quoted bodies stays whole, a
-- comment leaves its newline, and the blank statements are left out. No literal follows another and
-- no dash a dash, and the delimiter of a quoted body does not begin inside it.
pub split_statements-source_all :
    (ps : List Piece) → is_script ps ≡ true → split_statements (source_all ps) ≡ statements_of [] ps
unfolding split_statements
split_statements-source_all ps h = with_tail-scan [] [] ps h
