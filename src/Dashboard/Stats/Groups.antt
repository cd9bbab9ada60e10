-- ===== src/Dashboard/Stats/Groups.antt =====
-- Laws of the groups by neighbourhood.
use air_quality_monitoring.Base.{
  ℕ, ◌+◌, ◌≡◌, refl, sym, ◌∙◌, ◌⊎◌, inl, inr, suc, by_cases, length-append, Bool, false, ◌&&◌, none,
  some, List, [], ◌∷◌, ◌++◌, map, arith, length, keep, find, any, if◌then◌else◌,
}
use mathlib.Core.List.{append-nil, append_assoc}
use air_quality_monitoring.Base.Strings.{String, str_eq, eq_iff}
use air_quality_monitoring.Dashboard.Stats.{
  SensorRow, Group, NeighborhoodSummary, summary_of, summarise, group_by_neighborhood, members,
  is_named, add_to_group, group_rows,
}

-- Whether the row is one of the neighbourhood `id`.
abbrev pub is_in : String → SensorRow → Bool
is_in id row = is_named row.sensor.neighborhood && str_eq row.sensor.neighborhood_id id

-- The rows of the group `id`; none if there is no such group.
unfoldable pub rows_of : String → List Group → List SensorRow
rows_of id [] = []
rows_of id (g ∷ gs) = let rest = rows_of id gs in if str_eq g.id id then members g else rest

rows_of-add_to_group :
    (id : String) (row : SensorRow) (gs : List Group)
    → rows_of id (add_to_group row gs)
      ≡ (if str_eq row.sensor.neighborhood_id id then rows_of id gs ++ row ∷ [] else rows_of id gs)
unfolding rows_of add_to_group
rows_of-add_to_group id row [] = ground (arith, eq_iff row.sensor.neighborhood_id id)
rows_of-add_to_group id row (g ∷ gs) = ground (
  arith,
  rows_of-add_to_group id row gs,
  eq_iff g.id row.sensor.neighborhood_id,
  eq_iff g.id id,
  eq_iff row.sensor.neighborhood_id id,
)

-- The totals of all neighbourhoods, added up.
abbrev pub total_rows : List NeighborhoodSummary → ℕ
total_rows [] = 0
total_rows (n ∷ ns) = n.summary.total + total_rows ns

-- No two groups have the same id.
abbrev pub IdsUnique : List Group → Type 0
IdsUnique [] = Unit {0}
IdsUnique (g ∷ gs) = (any (λ h. str_eq h.id g.id) gs ≡ false) × IdsUnique gs

any-add_to_group :
    (id : String) (row : SensorRow) (gs : List Group)
    → any (λ h. str_eq h.id id) gs ≡ false
    → str_eq row.sensor.neighborhood_id id ≡ false
    → any (λ h. str_eq h.id id) (add_to_group row gs) ≡ false
unfolding add_to_group
any-add_to_group id row [] h k = ground arith
any-add_to_group id row (g ∷ gs) h k = ground (arith, any-add_to_group id row gs)

add_to_group-IdsUnique :
    (row : SensorRow) (gs : List Group) → IdsUnique gs → IdsUnique (add_to_group row gs)
unfolding add_to_group
add_to_group-IdsUnique row [] u = (refl, tt)
add_to_group-IdsUnique row (g ∷ gs) (f, u) =
    by_cases (str_eq g.id row.sensor.neighborhood_id) (λ e. rw e (f, u))
      (λ e. rw e (
        any-add_to_group g.id row gs f (
            ground (
              arith,
              eq_iff g.id row.sensor.neighborhood_id,
              eq_iff row.sensor.neighborhood_id g.id,
            )),
        add_to_group-IdsUnique row gs u,
      ))

pub group_rows-IdsUnique :
    (rows : List SensorRow) (gs : List Group) → IdsUnique gs → IdsUnique (group_rows rows gs)
unfolding group_rows
group_rows-IdsUnique [] gs u = u
group_rows-IdsUnique (row ∷ rows) gs u =
    by_cases (is_named row.sensor.neighborhood)
      (λ e.
        rw e (group_rows-IdsUnique rows (add_to_group row gs) (add_to_group-IdsUnique row gs u)))
      (λ e. rw e (group_rows-IdsUnique rows gs u))

-- A group has the rows of its neighbourhood in their order.
group_rows-partition :
    (id : String) (rows : List SensorRow) (gs : List Group)
    → rows_of id (group_rows rows gs) ≡ rows_of id gs ++ keep (is_in id) rows
unfolding group_rows
group_rows-partition id [] gs = sym (append-nil (rows_of id gs))
group_rows-partition id (row ∷ rows) gs = ground (
  arith,
  group_rows-partition id rows gs,
  group_rows-partition id rows (add_to_group row gs),
  rows_of-add_to_group id row gs,
  append_assoc (rows_of id gs) (row ∷ []) (keep (is_in id) rows),
)

-- Every group has a row.
find-summary_of :
    (id : String) (gs : List Group)
    → ((rows_of id gs ≡ []) × (find (λ n. str_eq n.id id) (map summary_of gs) ≡ none))
      ⊎ ((n : NeighborhoodSummary) × (find (λ n. str_eq n.id id) (map summary_of gs) ≡ some n)
          × (n.rows ≡ rows_of id gs)
          × (n.summary ≡ summarise (rows_of id gs)))
unfolding rows_of summary_of
find-summary_of id [] = inl (refl, refl)
find-summary_of id (g ∷ gs) =
    by_cases (str_eq g.id id) (λ e. rw e (inr (summary_of g, refl, refl, refl)))
      (λ e. rw e (find-summary_of id gs))

-- A neighbourhood is found exactly if a row names it, and it is found with all its rows, in their
-- order, and with the averages over those rows.
pub group_by_neighborhood_partition :
    (id : String) (rows : List SensorRow)
    → ((keep (is_in id) rows ≡ [])
        × (find (λ n. str_eq n.id id) (group_by_neighborhood rows) ≡ none))
      ⊎ ((n : NeighborhoodSummary) × (find (λ n. str_eq n.id id) (group_by_neighborhood rows)
            ≡ some n)
          × (n.rows ≡ keep (is_in id) rows)
          × (n.summary ≡ summarise (keep (is_in id) rows)))
unfolding group_by_neighborhood
group_by_neighborhood_partition id rows =
    let all : rows_of id (group_rows rows []) ≡ keep (is_in id) rows =
      unfold rows_of in group_rows-partition id rows [] in
    rw (← all) (find-summary_of id (group_rows rows []))

total_rows-add :
    (row : SensorRow) (gs : List Group)
    → total_rows (map summary_of (add_to_group row gs)) ≡ suc (total_rows (map summary_of gs))
unfolding add_to_group summary_of summarise
total_rows-add row [] = omega arith
total_rows-add row (g ∷ gs) =
    ground (arith, total_rows-add row gs, length-append g.later (row ∷ []))

total_rows-group_rows :
    (rows : List SensorRow) (gs : List Group)
    → total_rows (map summary_of (group_rows rows gs))
      ≡ total_rows (map summary_of gs) + length (keep (λ r. is_named r.sensor.neighborhood) rows)
unfolding group_rows
total_rows-group_rows [] gs = omega arith
total_rows-group_rows (row ∷ rows) gs = ground (
  arith,
  total_rows-group_rows rows gs,
  total_rows-group_rows rows (add_to_group row gs),
  total_rows-add row gs,
)

-- No two neighbourhoods have the same id.
abbrev pub PlacesUnique : List NeighborhoodSummary → Type 0
PlacesUnique [] = Unit {0}
PlacesUnique (n ∷ ns) = (any (λ m. str_eq m.id n.id) ns ≡ false) × PlacesUnique ns

any-summaries :
    (id : String) (gs : List Group)
    → any (λ m. str_eq m.id id) (map summary_of gs) ≡ any (λ g. str_eq g.id id) gs
unfolding summary_of
any-summaries id [] = refl
any-summaries id (g ∷ gs) = ground (arith, any-summaries id gs)

summaries-PlacesUnique : (gs : List Group) → IdsUnique gs → PlacesUnique (map summary_of gs)
unfolding summary_of
summaries-PlacesUnique [] u = tt
summaries-PlacesUnique (g ∷ gs) (f, u) = (any-summaries g.id gs ∙ f, summaries-PlacesUnique gs u)

-- No two neighbourhoods have the same id, and their totals add up to the number of rows whose sensor
-- has a neighbourhood: no such row is lost or counted twice.
pub group_by_neighborhood_totals :
    (rows : List SensorRow)
    → PlacesUnique (group_by_neighborhood rows)
      × (total_rows (group_by_neighborhood rows)
          ≡ length (keep (λ r. is_named r.sensor.neighborhood) rows))
unfolding group_by_neighborhood
group_by_neighborhood_totals rows = (
  summaries-PlacesUnique (group_rows rows []) (group_rows-IdsUnique rows [] tt),
  omega (arith, total_rows-group_rows rows []),
)
