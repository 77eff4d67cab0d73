-- ===== src/Evidence/Listings.antt =====
-- `claims` and `sources` of pebs/evidence.py: the rows of the project in the order of their times, and
-- of their identifiers where the times are equal.
use pebs.Base.{ℕ, Bool, ◌&&◌, ◌||◌, ◌==◌, List, Text, same, text_leb, ltb, select}
use pebs.Store.Listings.{sort_by}
use pebs.Evidence.Rows.{Claim, Source, EvidenceStore}

abbrev pub timed_leb : ℕ → Text → ℕ → Text → Bool
timed_leb s a t b = ltb s t || (s == t && text_leb a b)

unfoldable pub list_claims : EvidenceStore → List Claim
list_claims s =
    sort_by (λ (a b : Claim). timed_leb a.created_at a.claim_id b.created_at b.claim_id)
      (select (λ (c : Claim). same c.project_id s.project_id) s.claims)

unfoldable pub list_sources : EvidenceStore → List Source
list_sources s =
    sort_by (λ (a b : Source). timed_leb a.fetched_at a.source_id b.fetched_at b.source_id)
      (select (λ (r : Source). same r.project_id s.project_id) s.sources)
