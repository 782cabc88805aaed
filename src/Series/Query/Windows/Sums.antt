-- ===== src/Series/Query/Windows/Sums.antt =====
-- The loops of `tsedge_series_aggregate_windowed` over points, src/core/series_query.c: every window
-- gets exactly the points that it holds.
use tsedge.Common.{
  ℕ, zero, suc, ◌<◌, ◌≡◌, refl, ◌∙◌, Bool, Bool-cases, false, ◌&&◌, List, [], ◌∷◌, inl, inr, arith,
  IsU64, All, leb, ◌==◌, if◌then◌else◌, length, get_or, select, Error, ok,
}
use tsedge.Point.{Point, IsPoint, le64, lt64}
use tsedge.Double.{Doubles}
use tsedge.Segment.Reader.Aggregate.{AggregateState, aggregate_state_add}
use tsedge.Series.Query.Aggregate.{empty_state}
use tsedge.Series.Query.Windows.{validate_window_range, window_index, update_window, add_to_windows}
use tsedge.Series.Query.Windows.Bounds.{window_index-Holds}

length-update_window :
    (index : ℕ) (change : AggregateState → AggregateState) (windows : List AggregateState)
    → length (update_window index change windows) ≡ length windows
unfolding update_window
length-update_window index change [] = refl
length-update_window zero change (w ∷ windows) = refl
length-update_window (suc index) change (w ∷ windows) =
    omega (arith, length-update_window index change windows)

get_or-update_window :
    (index k : ℕ) (change : AggregateState → AggregateState) (windows : List AggregateState)
    → index < length windows
    → get_or (update_window index change windows) k empty_state
      ≡ (if index == k then change (get_or windows k empty_state) else get_or windows k empty_state)
unfolding update_window
get_or-update_window index k change [] h = absurd (omega arith)
get_or-update_window zero zero change (w ∷ windows) h = refl
get_or-update_window zero (suc k) change (w ∷ windows) h =
    let other : zero == suc k ≡ false = ground arith in rw other refl
get_or-update_window (suc index) zero change (w ∷ windows) h =
    let other : suc index == zero ≡ false = ground arith in rw other refl
get_or-update_window (suc index) (suc k) change (w ∷ windows) h =
    let same : suc index == suc k ≡ (index == k) = ground arith in
    rw same (get_or-update_window index k change windows (omega arith))

module _ (d : Doubles) where
  -- All values of these points added to a state.
  pub add_all : AggregateState → List Point → AggregateState
  add_all state [] = state
  add_all state (p ∷ points) = add_all (aggregate_state_add d state p.value) points

  -- Whether a point is in the range and its window is this one.
  abbrev pub in_window : ℕ → ℕ → ℕ → ℕ → Point → Bool
  in_window start_time end_time window_size k p =
      (le64 start_time p.timestamp && lt64 p.timestamp end_time)
      && window_index p.timestamp start_time window_size == k

  -- For a range that is accepted with this number of windows, the loop over valid points never
  -- refuses one. It keeps the number of windows, and what it adds to each window are exactly the
  -- points of the range whose index is that window's, in order.
  pub add_to_windows-add_all :
      (start_time end_time window_size count : ℕ) (rc : Error) (windows : List AggregateState)
      (points : List Point)
      → IsU64 start_time
      → IsU64 end_time
      → IsU64 window_size
      → validate_window_range start_time end_time window_size ≡ ok count
      → length windows ≡ count
      → All IsPoint points
      → (windows' : List AggregateState) × (add_to_windows d start_time end_time window_size rc
            windows points
          ≡ ok windows')
        × (length windows' ≡ count)
        × ((k : ℕ)
            → get_or windows' k empty_state
              ≡ add_all
                  (get_or windows k empty_state)
                  (select (in_window start_time end_time window_size k) points))
  unfolding add_to_windows add_all
  add_to_windows-add_all start_time end_time window_size count rc windows [] hs he hw e full all =
      (windows, refl, full, λ k. refl)
  add_to_windows-add_all start_time end_time window_size count rc windows (p ∷ points) hs he hw e
        full (hp, all) =
      let inside = le64 start_time p.timestamp && lt64 p.timestamp end_time in
      let index = window_index p.timestamp start_time window_size in
      let change = λ (w : AggregateState). aggregate_state_add d w p.value in
      elim (Bool-cases inside) [
        | inr out ↦
            let (windows', done, kept, sums) =
              add_to_windows-add_all start_time end_time window_size count rc windows points hs he
                hw e full all in
            (windows', rw out done, kept, λ k. rw out (sums k))
        | inl within ↦
            let (below, starts, ends, last) =
              window_index-Holds start_time end_time window_size count p.timestamp hs he hw
                hp.timestamp_fits e within in
            let room : leb (length windows) index ≡ false = ground (arith, below, full) in
            let (windows', done, kept, sums) =
              add_to_windows-add_all start_time end_time window_size count rc
                (update_window index change windows) points hs he hw e
                (length-update_window index change windows ∙ full) all in
            (
              windows',
              rw (within, room) done,
              kept,
              λ k.
                  sums k
                  ∙ rw
                      (
                        within,
                        get_or-update_window index k change windows (omega (arith, below, full)),
                      )
                      (elim (Bool-cases (index == k)) [
                        | inl here ↦ rw here refl
                        | inr other ↦ rw other refl
                      ]),
            )
      ]
