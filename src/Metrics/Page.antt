-- ===== src/Metrics/Page.antt =====
-- metrics.go: the text that `ServeHTTP` answers with.
use logger.Base.{
  ◌≡◌, refl, ap, ◌∙◌, append-nil, Bool, true, false, [], ◌∷◌, ◌++◌, append_assoc, Bytes, bytes,
  decimal, Map, ℕ,
}
use logger.Metrics.{Snapshot}

-- `if !first { b = append(b, ',') }`
abbrev separated : Bool → Bytes → Bytes
separated true b = b
separated false b = b ++ bytes ","

-- The loop over the counters by level, in the order in which Go visits them.
unfoldable pub level_counts : Map ℕ → Bool → Bytes → Bytes
unfolding decimal
level_counts [] first b = b
level_counts ((k, v) ∷ m) first b =
    level_counts m false ((((separated first b ++ bytes "\"") ++ k) ++ bytes "\":") ++ decimal v)

unfoldable pub metrics_page : Snapshot → Bytes
unfolding level_counts decimal
metrics_page s =
    let emitted = bytes "{\"emitted\":" ++ decimal s.emitted in
    let dropped = (emitted ++ bytes ",\"dropped\":") ++ decimal s.dropped in
    let errors = (dropped ++ bytes ",\"sink_errors\":") ++ decimal s.sink_errors in
    level_counts s.by_level true (errors ++ bytes ",\"by_level\":{") ++ bytes "}}\n"

-- A counter as a member of a JSON object, and members with commas between them.
abbrev counter : Bytes → ℕ → Bytes
counter name n = bytes "\"" ++ (name ++ (bytes "\":" ++ decimal n))

with_commas : Map ℕ → Bytes
with_commas [] = []
with_commas ((k, v) ∷ m) = bytes "," ++ (counter k v ++ with_commas m)

counters : Map ℕ → Bytes
counters [] = []
counters ((k, v) ∷ m) = counter k v ++ with_commas m

level_counts_after : (m : Map ℕ) (b : Bytes) → level_counts m false b ≡ b ++ with_commas m
unfolding level_counts with_commas
level_counts_after [] b = rw append-nil refl
level_counts_after ((k, v) ∷ m) b =
    level_counts_after m ((((b ++ bytes ",") ++ bytes "\"") ++ k) ++ bytes "\":" ++ decimal v)
    ∙ simp append_assoc

level_counts_lem : (m : Map ℕ) (b : Bytes) → level_counts m true b ≡ b ++ counters m
unfolding level_counts counters
level_counts_lem [] b = rw append-nil refl
level_counts_lem ((k, v) ∷ m) b = level_counts_after m _ ∙ simp append_assoc

-- The page is one JSON object with the three counters and, under by_level, an object with one
-- member for each level that has a count, with commas between them.
metrics_page_lem :
    (s : Snapshot)
    → metrics_page s
      ≡ bytes "{"
        ++ (counter (bytes "emitted") s.emitted
            ++ (bytes ","
                ++ (counter (bytes "dropped") s.dropped
                    ++ (bytes ","
                        ++ (counter (bytes "sink_errors") s.sink_errors
                            ++ (bytes ",\"by_level\":{"
                                ++ (counters s.by_level ++ bytes "}}\n")))))))
unfolding metrics_page
metrics_page_lem s = ap (λ b. b ++ bytes "}}\n") (level_counts_lem s.by_level _) ∙ simp append_assoc
