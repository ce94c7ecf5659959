-- ===== src/Datasource/ClickHouse/Rows.antt =====
-- What mapRows of datasource/clickhouse.go makes of the rows.
use chalert.Prelude.{
  ℕ, suc, ◌≡◌, ◌≢◌, refl, ap, subst, inl, inr, false, List, [], ◌∷◌, length, All, Option, none,
  some, Option-cases, Text, is_empty, arith,
}
use chalert.Time.{Time}
use chalert.Datasource.{Metric}
use chalert.Datasource.ClickHouse.{
  Column, Scan, scanned, scan_failed, Cell, Conversions, Mapped, metrics, map_failed,
  deref_to_float64, row_labels, read_rows, map_rows, classify, map_classified, with_metric, name_at,
  row_time, unix,
}

-- A metric as the data source promises it: one value, one timestamp, and no empty label.
pub record IsSample {F : Type 0} (m : Metric F) : Type 0 where
  pub one_value : length m.values ≡ 1
  pub one_timestamp : length m.timestamps ≡ 1
  pub labelled : All (λ l. is_empty l.value ≡ false) m.labels

module _ {F : Type 0} (conv : Conversions F) where
  row_labels_filled :
      (cs : List Column) (i : ℕ) (row : ℕ → Cell F)
      → All (λ l. is_empty l.value ≡ false) (row_labels conv cs i row)
  unfolding row_labels
  row_labels_filled [] i row = tt
  row_labels_filled (c ∷ cs) i row = ground (arith, row_labels_filled cs (suc i) row)

  abbrev AreSamples : ℕ → Mapped F → Type 0
  AreSamples n (metrics ms) = All IsSample ms × (length ms ≡ n)
  AreSamples n (map_failed e) = Unit

  abbrev AllOf : Mapped F → Type 0
  AllOf (metrics ms) = All IsSample ms
  AllOf (map_failed e) = Unit

  AreSamples-with_metric :
      (n : ℕ) (m : Metric F) (r : Mapped F)
      → IsSample m
      → AreSamples n r
      → AreSamples (suc n) (with_metric m r)
  AreSamples-with_metric n m (metrics ms) h k = ((h, k.0), ap suc k.1)
  AreSamples-with_metric n m (map_failed e) h k = tt

  module _ (columns : List Column) (eval_ts : Time) where
    read_rows-AreSamples :
        (name : Text) (v : ℕ) (t : Option ℕ) (rows : List (Scan F)) (end : Option Text)
        → AreSamples (length rows) (read_rows conv columns eval_ts name v t rows end)
    unfolding read_rows
    read_rows-AreSamples name v t [] none = (tt, refl)
    read_rows-AreSamples name v t [] (some e) = tt
    read_rows-AreSamples name v t (scan_failed e ∷ rest) end = tt
    read_rows-AreSamples name v t (scanned row ∷ rest) end =
        elim (Option-cases (deref_to_float64 conv (row v))) [
          | inl e ↦ rw (e, read_rows) tt
          | inr (x, e) ↦
              rw (e, read_rows)
                (AreSamples-with_metric (length rest)
                  (record {
                    labels = row_labels conv columns 0 row;
                    timestamps = unix (row_time eval_ts t row) ∷ [];
                    values = x ∷ [];
                  })
                  (read_rows conv columns eval_ts name v t rest end)
                  (record {
                    one_value = refl;
                    one_timestamp = refl;
                    labelled = row_labels_filled columns 0 row;
                  })
                  (read_rows-AreSamples name v t rest end))
        ]

    map_classified-AreSamples :
        (found : Option ℕ × Option ℕ) (rows : List (Scan F)) (end : Option Text)
        → AreSamples (length rows) (map_classified conv columns eval_ts found rows end)
    unfolding map_classified
    map_classified-AreSamples (none, t) rows end = tt
    map_classified-AreSamples (some v, t) rows end =
        read_rows-AreSamples (name_at columns v) v t rows end

  -- If the rows of a query with columns are mapped without an error, there is one metric for each row,
  -- with one value, one timestamp, and labels of which none is empty.
  pub map_rows-IsSample :
      (columns : List Column) (eval_ts : Time) (rows : List (Scan F)) (end : Option Text)
      (ms : List (Metric F))
      → columns ≢ []
      → map_rows conv columns eval_ts rows end ≡ metrics ms
      → All IsSample ms × (length ms ≡ length rows)
  unfolding map_rows
  map_rows-IsSample [] eval_ts rows end ms ne h = absurd (ne refl)
  map_rows-IsSample (c ∷ cs) eval_ts rows end ms ne h =
      subst (AreSamples (length rows)) h
        (map_classified-AreSamples (c ∷ cs) eval_ts (classify (c ∷ cs) 0 none none) rows end)

  -- The same of the metrics alone, whatever the columns.
  pub map_rows-All :
      (columns : List Column) (eval_ts : Time) (rows : List (Scan F)) (end : Option Text)
      (ms : List (Metric F))
      → map_rows conv columns eval_ts rows end ≡ metrics ms
      → All IsSample ms
  map_rows-All [] eval_ts rows end ms h = unfold map_rows in subst (λ r. AllOf r) h tt
  map_rows-All (c ∷ cs) eval_ts rows end ms h =
      (map_rows-IsSample (c ∷ cs) eval_ts rows end ms (λ e. cc) h).0
