-- ===== src/Grouping.antt =====
-- src/analyzer_ng/core/grouping.py: one launch's failures in groups, each with a representative and a
-- burst prior. NumPy's operations on vectors are a parameter; `mean` is of a stack along its first axis.
pub mod Partition
pub mod Leader
pub mod Led
mod Tests
use reportportal_analyzer_ng.Prelude.{
  ltb, leb, ◌==◌, if◌then◌else◌, length, keep, any, is_empty, ℕ, zero, suc, ◌+◌, ◌^◌, Bool, not,
  ◌&&◌, ◌||◌, Option, none, some, List, [], ◌∷◌, ◌++◌, map,
}
use reportportal_analyzer_ng.Floats.{Floats, lt, fmin, fzero, fone}

pub record Numpy (F V : Type 0) : Type 0 where
  pub norm : V → F
  pub divide : V → F → V
  pub mean : List V → V
  pub times : V → ℕ → V
  pub plus : V → V → V
  pub dot : V → V → F

pub record GroupItem (V : Type 0) : Type 0 where
  pub item_id : ℕ
  pub exception_fp : ℕ
  pub error_hash : ℕ
  pub emb : Option V
  pub has_stacktrace : Bool
  pub log_count : ℕ
  pub template_ids : List ℕ

-- the templates are a set
pub record LaunchGroup (F V : Type 0) : Type 0 where
  pub members : List (GroupItem V)
  pub centroid : Option V
  pub template_ids : List ℕ
  pub representative : Option (GroupItem V)
  pub si_prior : F

abbrev pub burst_n : ℕ
burst_n = 5

-- the members of a set that a list stands for
abbrev distinct : List ℕ → List ℕ
distinct [] = []
distinct (x ∷ xs) = let rest = distinct xs in if any (λ y. y == x) xs then rest else x ∷ rest

module _ {V : Type 0} where
  abbrev pub fingerprint : Option (GroupItem V) → ℕ
  fingerprint none = 0
  fingerprint (some rep) = rep.error_hash

  abbrev vectors : List (GroupItem V) → List V
  vectors [] = []
  vectors (m ∷ ms) = let rest = vectors ms in with_vector m.emb rest
    where
      with_vector : Option V → List V → List V
      with_vector none rest = rest
      with_vector (some v) rest = v ∷ rest

  abbrev templates : List (GroupItem V) → List ℕ
  templates [] = []
  templates (m ∷ ms) = m.template_ids ++ templates ms

  -- the order of the keys `(has_stacktrace, log_count, -item_id)`
  abbrev pub key_lt : GroupItem V → GroupItem V → Bool
  key_lt a b =
      not a.has_stacktrace && b.has_stacktrace
      || (not a.has_stacktrace && not b.has_stacktrace || a.has_stacktrace && b.has_stacktrace)
        && (ltb a.log_count b.log_count || a.log_count == b.log_count && ltb b.item_id a.item_id)

  -- `max(members, key=…)`, the first of the greatest
  pub max_from : GroupItem V → List (GroupItem V) → GroupItem V
  max_from best [] = best
  max_from best (m ∷ ms) = max_from (if key_lt best m then m else best) ms

  abbrev pub representative_of : List (GroupItem V) → Option (GroupItem V)
  representative_of [] = none
  representative_of (m ∷ ms) = some (max_from m ms)

  -- `sorted(…, key=item_id)`, stable
  pub insert_by_id : GroupItem V → List (GroupItem V) → List (GroupItem V)
  insert_by_id x [] = x ∷ []
  insert_by_id x (y ∷ ys) =
      let later = insert_by_id x ys in if leb x.item_id y.item_id then x ∷ y ∷ ys else y ∷ later

  pub by_id : List (GroupItem V) → List (GroupItem V)
  by_id [] = []
  by_id (x ∷ xs) = insert_by_id x (by_id xs)

  -- the dictionary by fingerprint, with its keys in ascending order
  pub put_bucket : GroupItem V → List (ℕ × List (GroupItem V)) → List (ℕ × List (GroupItem V))
  put_bucket item [] = (item.exception_fp, item ∷ []) ∷ []
  put_bucket item ((fp, members) ∷ rest) =
      let later = put_bucket item rest in
      if fp == item.exception_fp
      then (fp, members ++ item ∷ []) ∷ rest
      else if ltb item.exception_fp fp
      then (item.exception_fp, item ∷ []) ∷ (fp, members) ∷ rest
      else (fp, members) ∷ later

  pub buckets : List (ℕ × List (GroupItem V)) → List (GroupItem V) → List (ℕ × List (GroupItem V))
  unfolding put_bucket
  buckets by_fp [] = by_fp
  buckets by_fp (item ∷ items) =
      buckets (if item.exception_fp == 0 then by_fp else put_bucket item by_fp) items

  abbrev pub leftovers : List (GroupItem V) → List (GroupItem V)
  leftovers items = keep (λ i. i.exception_fp == 0) items

module _ {F : Type 0} ⦃fl : Floats F⦄ where
  abbrev pub theta_group : F
  theta_group = fl.ratio 83 100

module _ {F : Type 0} ⦃fl : Floats F⦄ where
  abbrev pub jaccard_min : F
  jaccard_min = fl.ratio 5 10

module _ {F : Type 0} ⦃fl : Floats F⦄ where
  abbrev pub si_prior_cap : F
  si_prior_cap = fl.ratio 9 10

module _ {F : Type 0} ⦃fl : Floats F⦄ where
  abbrev pub si_prior_base : F
  si_prior_base = fl.ratio 5 10

module _ {F : Type 0} ⦃fl : Floats F⦄ where
  unfoldable pub jaccard_ids : List ℕ → List ℕ → F
  jaccard_ids a b =
      let common = length (keep (λ x. any (λ y. y == x) b) (distinct a)) in
      if is_empty a && is_empty b then fzero else fl.ratio common (length (distinct (a ++ b)))

module _ {F : Type 0} ⦃fl : Floats F⦄ where
  -- a burst: a new failure that takes a large share of the launch
  abbrev pub is_burst : F → (ℕ → Bool) → ℕ → ℕ → ℕ → Bool
  is_burst burst_x is_new total hash size =
      ltb 0 total && is_new hash && leb burst_n size && lt burst_x (fl.ratio size total)

module _ {F V : Type 0} ⦃fl : Floats F⦄ where
  unfoldable pub normalize : Numpy F V → V → V
  normalize np vec =
      let norm = np.norm vec in if lt norm (fl.ratio 1 (10 ^ 12)) then vec else np.divide vec norm

  abbrev centroid_of : Numpy F V → List V → Option V
  centroid_of np [] = none
  centroid_of np (v ∷ vs) = some (normalize np (np.mean (v ∷ vs)))

  unfoldable pub new_group : Numpy F V → List (GroupItem V) → LaunchGroup F V
  unfolding normalize
  new_group np members = record {
    members = members;
    centroid = centroid_of np (vectors members);
    template_ids = templates members;
    representative = none;
    si_prior = fzero;
  }

  abbrev moved : Numpy F V → ℕ → Option V → V → V
  moved np n none vec = normalize np vec
  moved np zero (some centroid) vec = normalize np vec
  moved np (suc n) (some centroid) vec =
      normalize np (np.divide (np.plus (np.times centroid (suc n)) vec) (fl.ratio (suc n + 1) 1))

  abbrev attached : Numpy F V → LaunchGroup F V → Option V → Option V
  attached np group none = group.centroid
  attached np group (some vec) = some (moved np (length (vectors group.members)) group.centroid vec)

  unfoldable pub add_member : Numpy F V → LaunchGroup F V → GroupItem V → LaunchGroup F V
  unfolding normalize
  add_member np group item = record group {
    members = group.members ++ item ∷ [];
    centroid = attached np group item.emb;
    template_ids = group.template_ids ++ item.template_ids;
  }

  unfoldable pub cosine : Numpy F V → Option V → Option V → F
  cosine np none b = fl.sub fzero fone
  cosine np (some a) none = fl.sub fzero fone
  cosine np (some a) (some b) = np.dot a b

  abbrev close : Numpy F V → LaunchGroup F V → LaunchGroup F V → Bool
  close np existing group =
      fl.le theta_group (cosine np existing.centroid group.centroid)
      && fl.le jaccard_min (jaccard_ids existing.template_ids group.template_ids)

  pub add_all : Numpy F V → LaunchGroup F V → List (GroupItem V) → LaunchGroup F V
  unfolding add_member
  add_all np group [] = group
  add_all np group (item ∷ items) = add_all np (add_member np group item) items

  -- into the first close group, or after the others
  pub merge_into : Numpy F V → LaunchGroup F V → List (LaunchGroup F V) → List (LaunchGroup F V)
  unfolding add_all cosine jaccard_ids
  merge_into np group [] = group ∷ []
  merge_into np group (existing ∷ rest) =
      let later = merge_into np group rest in
      if close np existing group then add_all np existing group.members ∷ rest else existing ∷ later

  pub merge_from :
      Numpy F V → List (LaunchGroup F V) → List (LaunchGroup F V) → List (LaunchGroup F V)
  unfolding merge_into
  merge_from np merged [] = merged
  merge_from np merged (group ∷ groups) = merge_from np (merge_into np group merged) groups

  -- the place of the last of the most similar groups that reach the best similarity so far
  pub best_group : Numpy F V → V → F → Option ℕ → ℕ → List (LaunchGroup F V) → Option ℕ
  unfolding cosine
  best_group np vec best_sim best place [] = best
  best_group np vec best_sim best place (group ∷ groups) =
      let sim = cosine np (some vec) group.centroid in
      best_group np vec (if fl.le best_sim sim then sim else best_sim)
        (if fl.le best_sim sim then some place else best) (place + 1) groups

  pub add_at : Numpy F V → ℕ → GroupItem V → List (LaunchGroup F V) → List (LaunchGroup F V)
  unfolding add_member new_group
  add_at np place item [] = new_group np (item ∷ []) ∷ []
  add_at np zero item (group ∷ groups) = add_member np group item ∷ groups
  add_at np (suc place) item (group ∷ groups) = group ∷ add_at np place item groups

  abbrev attach_at :
      Numpy F V → Option ℕ → GroupItem V → List (LaunchGroup F V) → List (LaunchGroup F V)
  attach_at np none item groups = groups ++ new_group np (item ∷ []) ∷ []
  attach_at np (some place) item groups = add_at np place item groups

  abbrev nearest : Numpy F V → Option V → List (LaunchGroup F V) → Option ℕ
  nearest np none groups = none
  nearest np (some vec) groups = best_group np vec theta_group none 0 groups

  pub attach_all : Numpy F V → List (LaunchGroup F V) → List (GroupItem V) → List (LaunchGroup F V)
  unfolding best_group add_at
  attach_all np groups [] = groups
  attach_all np groups (item ∷ items) =
      attach_all np (attach_at np (nearest np item.emb groups) item groups) items

  unfoldable pub finished : F → (ℕ → Bool) → ℕ → LaunchGroup F V → LaunchGroup F V
  unfolding max_from
  finished burst_x is_new total group =
      let rep = representative_of group.members in
      let size = length group.members in
      record group {
        representative = rep;
        si_prior =
            if is_burst burst_x is_new total (fingerprint rep) size
            then fmin si_prior_cap (fl.add si_prior_base (fl.ratio size total))
            else fzero;
      }

  abbrev pub passes : Numpy F V → List (GroupItem V) → List (LaunchGroup F V)
  passes np items = merge_from np [] (
      attach_all np (map (λ e. new_group np (by_id e.1)) (buckets [] items))
        (by_id (leftovers items)))

  pub group_launch : Numpy F V → F → (ℕ → Bool) → List (GroupItem V) → List (LaunchGroup F V)
  unfolding finished merge_from attach_all new_group buckets by_id insert_by_id
  group_launch np burst_x is_new items =
      map (finished burst_x is_new (length items)) (passes np items)
