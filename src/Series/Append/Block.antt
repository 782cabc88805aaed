-- ===== src/Series/Append/Block.antt =====
-- The index, the active segment and the directory behind a flush, src/core/series.c and
-- series_index.c and src/storage/segment_rotation.c.
use tsedge.Common.{
  ℕ, ◌+◌, ◌≤◌, ◌≡◌, refl, ap, ap₂, sym, ◌∙◌, Bool, Bool-cases, some, List, [], ◌∷◌, ◌++◌, inl, inr,
  arith, IsU32, u32, u64, leb, ◌==◌, if◌then◌else◌, length, ok, Result-cases, ok-pair_injective,
  ok-injective, fail_if-eq-ok, >>=-eq-ok, internal,
}
use tsedge.Double.{IsDoubles}
use tsedge.Segment.{Appended, IndexEntry, fill_index_entry, contents}
use tsedge.Segment.Files.{make_path}
use tsedge.Segment.Stored.{Gives, FillBlock, prepare_block-IsStored}
use tsedge.Segment.Append.{appended, append_block_cases}
use tsedge.Segment.Layout.{StoredBlock, block_bytes}
use tsedge.Series.{
  Series, file_of, set_file, segment_id_known, ensure_capacity, push_segment_id, push_index_entry,
  add_segment_id, add_block_index_entry, file_size_or_zero, segment_max_bytes, rotate_if_needed,
}
use tsedge.Series.Disk.{
  StoredSegment, Ordered-mono, add_block, add_block-Ordered, add_block-files, add_block-ids,
  add_block-entries, Stores,
}
use tsedge.Series.Append.{Env, Db, DbStep, on_series, after_append, put_file, after_rotation}
use tsedge.Series.Append.Grows.{then_do-eq-ok}

-- The ids behind `tsedge_series_add_segment_id`.
abbrev pub with_id : List ℕ → ℕ → List ℕ
with_id ids id = if segment_id_known ids id then ids else ids ++ (id ∷ [])

add_segment_id_ok :
    (alloc : ℕ → Bool) (s : Series) (id : ℕ)
    → (add_segment_id alloc s id).1 ≡ ok tt
    → (capacity : ℕ) × ((add_segment_id alloc s id).0
        ≡ record s { segment_ids = with_id s.segment_ids id; segment_capacity = capacity })
unfolding add_segment_id push_segment_id
add_segment_id_ok alloc s id e =
    let room = ensure_capacity alloc 4 4 (length s.segment_ids) s.segment_capacity in
    elim (Bool-cases (id == 0)) [
      | inl nothing ↦ absurd (cc (rw nothing at e))
      | inr some_id ↦ elim (Bool-cases (segment_id_known s.segment_ids id)) [
        | inl known ↦ (s.segment_capacity, rw (some_id, known) refl)
        | inr fresh ↦ elim (Result-cases room) [
          | inl (capacity, grown) ↦ (capacity, rw (some_id, fresh, grown) refl)
          | inr (x, failed) ↦ absurd (cc (rw (some_id, fresh, failed) at e))
        ]
      ]
    ]

add_block_index_entry_ok :
    (alloc : ℕ → Bool) (s : Series) (entry : IndexEntry)
    → (add_block_index_entry alloc s entry).1 ≡ ok tt
    → (capacity : ℕ) × ((add_block_index_entry alloc s entry).0
        ≡ record s { block_index = s.block_index ++ (entry ∷ []); block_index_capacity = capacity })
unfolding add_block_index_entry push_index_entry
add_block_index_entry_ok alloc s entry e =
    elim (Result-cases
      (ensure_capacity alloc 40 16 (length s.block_index) s.block_index_capacity)) [
        | inl (capacity, grown) ↦ (capacity, rw grown refl)
        | inr (x, failed) ↦ absurd (cc (rw failed at e))
      ]

-- The next segment, if any, is the one after the active one.
pub rotate_if_needed_ok :
    (alloc : ℕ → Bool) (s : Series) (block_size id : ℕ)
    → 1 ≤ s.active_segment_id
    → IsU32 s.active_segment_id
    → rotate_if_needed alloc s block_size ≡ ok id
    → (s.active_segment_id ≤ id) × IsU32 id
unfolding rotate_if_needed
rotate_if_needed_ok alloc s block_size id low fits e =
    let active_size = file_size_or_zero (file_of s.files s.active_segment_id) in
    let next = u32 (s.active_segment_id + 1) in
    elim (Bool-cases (active_size == 0)) [
      | inl nothing ↦
          let same : s.active_segment_id ≡ id = ok-injective (rw nothing at e) in
          (omega arith, omega arith)
      | inr bytes ↦ elim (Bool-cases (leb (u64 (active_size + block_size)) segment_max_bytes)) [
        | inl room ↦
            let same : s.active_segment_id ≡ id = ok-injective (rw (bytes, room) at e) in
            (omega arith, omega arith)
        | inr full ↦
            let (some_id, e') = fail_if-eq-ok (next == 0) internal _ (rw (bytes, full) at e) in
            let (path, made, e'') = >>=-eq-ok (make_path alloc s.dir_path next) _ e' in
            let same : next ≡ id = ok-injective e'' in ground (arith, same, some_id)
      ]
    ]

-- The series with one more block in the segment `id`.
abbrev pub with_block : Series → ℕ → StoredBlock → ℕ → ℕ → Series
with_block s id b id_capacity entry_capacity =
    let old = contents (file_of s.files id) in
    record s {
      active_segment_id = id;
      files = set_file s.files id (old ++ block_bytes b);
      segment_ids = with_id s.segment_ids id;
      segment_capacity = id_capacity;
      block_index = s.block_index ++ (fill_index_entry id (length old) b.header ∷ []);
      block_index_capacity = entry_capacity;
      buffer = [];
    }

-- That series still agrees with its directory.
pub with_block-Stores :
    (s : Series) (segments : List StoredSegment) (id : ℕ) (b : StoredBlock)
    (id_capacity entry_capacity : ℕ)
    → Stores s segments
    → (s.active_segment_id ≤ id) × IsU32 id
    → Stores (with_block s id b id_capacity entry_capacity) (add_block segments id b)
with_block-Stores s segments id b id_capacity entry_capacity st (low, fits) =
    let o = Ordered-mono s.active_segment_id id segments low st.ordered in
    record {
      files_eq = rw st.files_eq (sym (add_block-files id b segments));
      ids_eq = rw st.ids_eq (sym (add_block-ids id b segments));
      index_eq = rw (st.index_eq, st.files_eq) (sym (add_block-entries id b segments o));
      ordered = add_block-Ordered id b segments (omega (arith, st.active_low)) o;
      active_low = omega (arith, st.active_low);
      active_fits = fits;
      buffer_fits = omega arith;
      all = tt;
    }

module _ (env : Env) (quota : Db → DbStep) where
  -- The index and the buffer behind a flush that appended a block.
  after_append_ok :
      (db : Db) (entry : IndexEntry)
      → (after_append env quota db (ok (some entry))).1 ≡ ok tt
      → (id_capacity : ℕ) × (entry_capacity : ℕ) × ((after_append env quota db (ok (some entry))).0
          ≡ record db {
            series = record db.series {
              segment_ids = with_id db.series.segment_ids db.series.active_segment_id;
              segment_capacity = id_capacity;
              block_index = db.series.block_index ++ (entry ∷ []);
              block_index_capacity = entry_capacity;
              buffer = [];
            };
          })
  unfolding after_append on_series
  after_append_ok db entry e =
      let ids = add_segment_id env.alloc db.series db.series.active_segment_id in
      let (added, same) = then_do-eq-ok (on_series db ids) _ e in
      let (pushed, same') =
        then_do-eq-ok (on_series (on_series db ids).0 (add_block_index_entry env.alloc ids.0 entry))
          _ (sym (ap (λ (t : DbStep). t.1) same) ∙ e) in
      let (id_capacity, ids_eq) =
        add_segment_id_ok env.alloc db.series db.series.active_segment_id added in
      let (entry_capacity, entries_eq) = add_block_index_entry_ok env.alloc ids.0 entry pushed in
      (
        id_capacity,
        entry_capacity,
        ap (λ (t : DbStep). t.0) (same ∙ same')
            ∙ ap (λ (s : Series). record db { series = record s { buffer = [] } })
                (entries_eq
                  ∙ ap
                      (λ (s : Series). record s {
                        block_index = s.block_index ++ (entry ∷ []);
                        block_index_capacity = entry_capacity;
                      })
                      ids_eq),
      )

  pub after_rotation_ok :
      (db : Db) (id : ℕ)
      → IsDoubles env.doubles
      → Gives env.alloc
      → FillBlock db.series.buffer
      → (after_rotation env quota db (ok id)).1 ≡ ok tt
      → (b : StoredBlock) × (b.points ≡ db.series.buffer)
        × (id_capacity : ℕ) × (entry_capacity : ℕ) × ((after_rotation env quota db (ok id)).0
            ≡ record db {
              series = with_block db.series id b id_capacity entry_capacity;
              opened = db.opened + 1;
            })
  unfolding after_rotation put_file after_append
  after_rotation_ok db id d gives f e =
      let s = db.series in
      let old = file_of s.files id in
      let (h, buf, payload, ready, stored) =
        prepare_block-IsStored env.doubles env.alloc s.buffer d gives f in
      elim (append_block_cases env.doubles env.alloc (env.segment_calls db.opened) old id
        s.buffer) [
          | inl (nothing, r) ↦ absurd (omega (arith, f.some_point, ap length nothing))
          | inr (inr (x, added, failed, r, whole)) ↦ absurd (cc (rw failed at e))
          | inr (inl (h', block, ready', r)) ↦
              let (same_h, same_block) =
                ok-pair_injective h' h block (buf ++ payload) (sym ready' ∙ ready) in
              let done = r ∙ ap₂ (appended old id) same_h same_block in
              let (id_capacity, entry_capacity, final) =
                after_append_ok (put_file env quota db id (some (contents old ++ (buf ++ payload))))
                  (fill_index_entry id (length (contents old)) h) (rw done at e) in
              (
                record {
                  points = s.buffer;
                  header = h;
                  buf = buf;
                  payload = payload;
                  stored = stored;
                },
                refl,
                id_capacity,
                entry_capacity,
                ap
                      (λ (t : Appended).
                        (after_append env quota (put_file env quota db id t.file) t.result).0)
                      done
                    ∙ final,
              )
        ]
