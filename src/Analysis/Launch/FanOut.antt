-- ===== src/Analysis/Launch/FanOut.antt =====
-- What the analysis of a launch writes and answers.
use mathlib.Core.Path.{subst}
use mathlib.Core.List.{append-nil}
use reportportal_analyzer_ng.Prelude.{
  Bool-cases, length, keep, All, ℕ, ◌≡◌, refl, sym, ap, ◌∙◌, inl, inr, Bool, false, Option, none,
  some, List, [], ◌∷◌, ◌++◌, map,
}
use reportportal_analyzer_ng.Floats.{Floats}
use reportportal_analyzer_ng.Grouping.Led.{IsLed, group_launch-IsLed}
use reportportal_analyzer_ng.Grouping.{Numpy, GroupItem, LaunchGroup, group_launch}
use reportportal_analyzer_ng.Analysis.Evidence.{ModeMatch}
use reportportal_analyzer_ng.Analysis.Effects.{
  SuggestionIn, Effect, write_suggestion, AnalysisResult, suggestion_of, record_membership,
  result_of, applied, enqueue_llm,
}
use reportportal_analyzer_ng.Analysis.Effects.Written.{
  answers, answers-append, labels_written, rows_written, labels_written-append, rows_written-append,
  record_membership_silent, applied_labels, enqueue_llm_silent,
}
use reportportal_analyzer_ng.Analysis.Launch.{
  LaunchContext, labels, joined, decided_as, is_same_as, member_decision, own_membership,
  analyze_member, analyze_members, inherit_ids, analyze_group, analyze_next, analyze_groups,
  analyze_launch,
}
use reportportal_analyzer_ng.Analysis.Launch.Expected.{
  is_answer, labels-is_answer, expected, by_code, by_code-expected, row_by, rows_first, rows_by,
  answers_first, answers_by,
}

module _ {F V B C : Type 0} ⦃fl : Floats F⦄ (ctx : LaunchContext F V B C) where
  abbrev row_of_member : LaunchGroup F V → GroupItem V → GroupItem V → SuggestionIn F C
  row_of_member g rep item = row_by ctx (by_code ctx) g rep item

  abbrev rows_of_group : LaunchGroup F V → Option (GroupItem V) → List (SuggestionIn F C)
  rows_of_group g o = rows_first ctx (by_code ctx) g o

  abbrev rows_of_groups : List (LaunchGroup F V) → List (SuggestionIn F C)
  rows_of_groups gs = rows_by ctx (by_code ctx) gs

  abbrev answers_of_group : LaunchGroup F V → Option (GroupItem V) → List AnalysisResult
  answers_of_group g o = answers_first ctx (by_code ctx) labels g o

  abbrev answers_of_groups : List (LaunchGroup F V) → List AnalysisResult
  answers_of_groups gs = answers_by ctx (by_code ctx) labels gs

  abbrev Output : Type 0
  Output = List (Effect F C) × List AnalysisResult

  -- the rows, the answers, and the labels of the answers
  abbrev Gives : Output → List (SuggestionIn F C) → List AnalysisResult → Type 0
  Gives out rows results =
      (rows_written out.0 ≡ rows) × (out.1 ≡ results) × (labels_written out.0 ≡ answers results)

  own_membership_silent :
      (rep member : GroupItem V) (m : Option (ModeMatch F))
      → (labels_written (own_membership ctx rep member m) ≡ [])
        × (rows_written (own_membership ctx rep member m) ≡ [])
  own_membership_silent rep member m = elim (Bool-cases (is_same_as ctx rep member)) [
    | inl e ↦ rw e (refl, refl)
    | inr e ↦ rw e (record_membership_silent (member.item_id ∷ []) m)
  ]

  analyze_member-Gives :
      (g : LaunchGroup F V) (rep member : GroupItem V)
      → let d = (member_decision ctx g rep member).0 in
        Gives
          (analyze_member ctx g rep member)
          (row_of_member g rep member ∷ [])
          (applied (labels d) member.item_id d).1
  analyze_member-Gives g rep item =
      let (d, m) = member_decision ctx g rep item in
      let own = own_membership ctx rep item m in
      let row = suggestion_of item.item_id (some (ctx.group_id g)) false d in
      let jobs = enqueue_llm ctx.llm_on ctx.judge_tau item.item_id d none in
      let written = (applied (labels d) item.item_id d).0 in
      let (no_label, no_row) = own_membership_silent rep item m in
      let (no_label2, no_row2) = enqueue_llm_silent ctx.llm_on ctx.judge_tau item.item_id d none in
      let (same_labels, no_row3) = applied_labels (labels d) item.item_id d in
      (
        rows_written-append own (write_suggestion row ∷ (jobs ++ written))
            ∙ rw (no_row, rows_written-append jobs written, no_row2, no_row3) refl,
        refl,
        labels_written-append own (write_suggestion row ∷ (jobs ++ written))
            ∙ rw (no_label, labels_written-append jobs written, no_label2) same_labels,
      )

  Gives-append :
      (a b : Output) (rows later_rows : List (SuggestionIn F C))
      (results later : List AnalysisResult)
      → Gives a rows results
      → Gives b later_rows later
      → Gives (a.0 ++ b.0, a.1 ++ b.1) (rows ++ later_rows) (results ++ later)
  Gives-append a b rows later_rows results later (r, o, l) (r2, o2, l2) = (
    rows_written-append a.0 b.0 ∙ rw (r, r2) refl,
    rw (o, o2) refl,
    labels_written-append a.0 b.0 ∙ rw (l, l2) (sym (answers-append results later)),
  )

  abbrev results_of : LaunchGroup F V → GroupItem V → List (GroupItem V) → List AnalysisResult
  results_of g rep items =
      map (λ m. result_of m.item_id (member_decision ctx g rep m).0)
        (keep (λ m. labels (member_decision ctx g rep m).0) items)

  results_of_first :
      (g : LaunchGroup F V) (rep item : GroupItem V) (items : List (GroupItem V))
      → let d = (member_decision ctx g rep item).0 in
        (applied (labels d) item.item_id d).1 ++ results_of g rep items
        ≡ results_of g rep (item ∷ items)
  results_of_first g rep item items =
      elim (Bool-cases (labels (member_decision ctx g rep item).0)) [
        | inl e ↦ rw e refl
        | inr e ↦ rw e refl
      ]

  analyze_members-Gives :
      (g : LaunchGroup F V) (rep : GroupItem V) (items : List (GroupItem V))
      → Gives
          (analyze_members ctx g rep items)
          (map (row_of_member g rep) items)
          (results_of g rep items)
  unfolding analyze_members
  analyze_members-Gives g rep [] = (refl, refl, refl)
  analyze_members-Gives g rep (item ∷ items) =
      let d = (member_decision ctx g rep item).0 in
      let here = (applied (labels d) item.item_id d).1 in
      subst
        (Gives (analyze_members ctx g rep (item ∷ items))
          (map (row_of_member g rep) (item ∷ items)))
        (results_of_first g rep item items)
        (Gives-append (analyze_member ctx g rep item) (analyze_members ctx g rep items)
          (row_of_member g rep item ∷ []) (map (row_of_member g rep) items) here
          (results_of g rep items) (analyze_member-Gives g rep item)
          (analyze_members-Gives g rep items))

  analyze_group-Gives :
      (g : LaunchGroup F V) (rep : GroupItem V)
      → Gives
          (analyze_group ctx g rep)
          (map (row_of_member g rep) g.members)
          (results_of g rep g.members)
  unfolding analyze_group
  analyze_group-Gives g rep =
      let (r, o, l) = analyze_members-Gives g rep g.members in
      let effects = (analyze_members ctx g rep g.members).0 in
      let joins =
        record_membership (inherit_ids ctx rep g.members) (decided_as ctx g rep.item_id).1 in
      let (no_label, no_row) =
        record_membership_silent {C = C} (inherit_ids ctx rep g.members)
          (decided_as ctx g rep.item_id).1 in
      (
        rows_written-append effects joins
            ∙ rw (r, no_row) (append-nil (map (row_of_member g rep) g.members)),
        o,
        labels_written-append effects joins
            ∙ rw (l, no_label) (append-nil (answers (results_of g rep g.members))),
      )

  abbrev pub HasRep : LaunchGroup F V → Type 0
  HasRep g = (rep : GroupItem V) × (g.representative ≡ some rep)

  abbrev GivesAll : Option Output → List (LaunchGroup F V) → Type 0
  GivesAll o gs =
      (out : Output) × (o ≡ some out) × Gives out (rows_of_groups gs) (answers_of_groups gs)

  analyze_next-Gives :
      (g : LaunchGroup F V) (o : Option (GroupItem V)) (later : Option Output)
      (gs : List (LaunchGroup F V))
      → (rep : GroupItem V) × (o ≡ some rep)
      → GivesAll later gs
      → (out : Output) × (analyze_next ctx g o later ≡ some out)
        × Gives out
            (rows_of_group g o ++ rows_of_groups gs)
            (answers_of_group g o ++ answers_of_groups gs)
  analyze_next-Gives g none later gs (rep, e) h = cc
  analyze_next-Gives g (some rep) later gs e (out, f, gives) =
      let first = analyze_group ctx g rep in
      (
        (first.0 ++ out.0, first.1 ++ out.1),
        ap (joined first) f,
        Gives-append first out (map (row_of_member g rep) g.members) (rows_of_groups gs)
            (results_of g rep g.members) (answers_of_groups gs) (analyze_group-Gives g rep) gives,
      )

  analyze_groups-Gives :
      (gs : List (LaunchGroup F V)) → All HasRep gs → GivesAll (analyze_groups ctx gs) gs
  unfolding analyze_groups
  analyze_groups-Gives [] a = (([], []), refl, (refl, refl, refl))
  analyze_groups-Gives (g ∷ gs) a =
      analyze_next-Gives g g.representative (analyze_groups ctx gs) gs a.0
        (analyze_groups-Gives gs a.1)

  pub has_rep :
      (burst_x : F) (is_new : ℕ → Bool) (total : ℕ) (gs : List (LaunchGroup F V))
      → All (IsLed burst_x is_new total) gs
      → All HasRep gs
  has_rep burst_x is_new total [] a = tt
  has_rep burst_x is_new total (g ∷ gs) a =
      let (rep, e, leads, prior) = a.0 in ((rep, e), has_rep burst_x is_new total gs a.1)

  -- The analysis of a launch never fails its assertion. It writes one suggestion row for each member of
  -- each group, in order, with the decision of the representative where the two signatures agree in the
  -- error hash, the status codes and the message tokens, and with the member's own decision elsewhere;
  -- it answers for exactly the members whose decision is automatic and not `ti`, in order; and the labels
  -- that it writes are those of its answers.
  pub analyze_launch_lem :
      (np : Numpy F V) (burst_x : F) (is_new : ℕ → Bool) (items : List (GroupItem V))
      → let groups = group_launch np burst_x is_new items in
        let results = answers_by ctx (expected ctx) is_answer groups in
        (out : List (Effect F C) × List AnalysisResult) × (analyze_launch np burst_x is_new ctx
            items
          ≡ some out)
        × ((rows_written out.0 ≡ rows_by ctx (expected ctx) groups)
            × (out.1 ≡ results)
            × (labels_written out.0 ≡ answers results))
  unfolding analyze_launch
  analyze_launch_lem np burst_x is_new items =
      let groups = group_launch np burst_x is_new items in
      let (out, e, gives) = analyze_groups-Gives groups (
        has_rep burst_x is_new (length items) groups
          (group_launch-IsLed np burst_x is_new items)) in
      (
        out,
        e,
        subst
            (λ test.
              Gives out (rows_by ctx (expected ctx) groups)
                (answers_by ctx (expected ctx) test groups))
            labels-is_answer
            (subst (λ dec. Gives out (rows_by ctx dec groups) (answers_by ctx dec labels groups))
              (by_code-expected ctx) gives),
      )
