-- ===== src/Stream/Columns.antt =====
-- The mel columns kept between decodes: what the decoder sees is what filling the window afresh
-- gives.
use native.Mathlib.Nat.{le-div_iff_mul-le, div-mul-le_self, div-eq_of_lt}
use gigaam_v3_runtime.Base.{
  ◌∷◌, Bool-cases, leb→le, ℕ, zero, suc, ◌+◌, ◌-◌, ◌*◌, ◌/◌, ◌≤◌, ◌<◌, ◌≡◌, refl, subst, ap, sym,
  ◌∙◌, inl, inr, not, List, [], ◌++◌, if◌then◌else◌, arith, ltb, leb, lt→ltb, length, length-append,
  get_elem?-append_left, set, min, Result, ok, ◌>>=◌, ◌>>◌, >>=-eq-ok, ok-injective, refuse_if,
  ok_or,
}
use gigaam_v3_runtime.Base.Words.{checked_add, checked_mul}
use gigaam_v3_runtime.Stream.Config.{
  StreamError, panicked, offset_overflow, index_overflow, StreamConfig, Ports,
}
use gigaam_v3_runtime.Stream.Features.{
  Window, div_ceil, sample_at, read_frame, column_at, fill_columns, real_frames, padded_frames,
  update_columns,
}
use gigaam_v3_runtime.Stream.Overwriting.{
  >>=-cong, >>=-cong_ok, >>=-assoc, checked_add-value, checked_mul-value, everywhere,
  get_elem?-within, extensional, Outside, Outside-set, set-Outside, Outside-more,
}

module _ {V D C : Type 0} (c : StreamConfig V C) (p : Ports V D C) where
  -- One turn of the loop once its column is there.
  abbrev write_column : List V → ℕ → ℕ → List C → C → Result StreamError (List C)
  write_column buffer time turns mel column =
      refuse_if (not (ltb time (length mel))) panicked
      >> fill_columns c p buffer (suc time) turns (set mel time column)

  fill_columns-Outside :
      (buffer : List V) (from n : ℕ) (mel : List C) {filled : List C}
      → fill_columns c p buffer from n mel ≡ ok filled
      → Outside from n mel filled
  unfolding fill_columns
  fill_columns-Outside buffer from zero mel h =
      subst (Outside from zero mel) (ok-injective h) (refl, λ i away. refl)
  fill_columns-Outside buffer from (suc n) mel {filled = filled} h =
      let (column, _, h1) = >>=-eq-ok (column_at c p buffer from) _ h in
      let (_, _, h2) = >>=-eq-ok (refuse_if (not (ltb from (length mel))) panicked) _ h1 in
      set-Outside from n mel filled column
        (fill_columns-Outside buffer (suc from) n (set mel from column) h2)

  -- The columns that are filled do not matter.
  fill_columns-same :
      (buffer : List V) (from n : ℕ) (xs ys : List C)
      → Outside from n xs ys
      → fill_columns c p buffer from n xs ≡ fill_columns c p buffer from n ys
  unfolding fill_columns
  fill_columns-same buffer from zero xs ys (lengths, same) =
      ap ok (extensional xs ys lengths (λ i. same i (everywhere from i)))
  fill_columns-same buffer from (suc n) xs ys outside =
      >>=-cong (column_at c p buffer from) (write_column buffer from n xs)
        (write_column buffer from n ys)
        (λ column.
          ap
            (λ m.
              refuse_if (not (ltb from m)) panicked
              >> fill_columns c p buffer (suc from) n (set xs from column))
            outside.0
          ∙ ap (λ r. refuse_if (not (ltb from (length ys))) panicked >> r)
              (fill_columns-same buffer (suc from) n (set xs from column) (set ys from column)
                (Outside-set from n xs ys column outside)))

  -- The loop in two parts.
  fill_columns-add :
      (buffer : List V) (from n k middle turns : ℕ) (mel : List C)
      → middle ≡ from + n
      → turns ≡ n + k
      → fill_columns c p buffer from turns mel
        ≡ (fill_columns c p buffer from n mel >>= fill_columns c p buffer middle k)
  unfolding fill_columns
  fill_columns-add buffer from zero k middle turns mel at all =
      let e : from ≡ middle = omega (arith, at) in
      let e' : turns ≡ k = omega (arith, all) in
      ap (λ t. fill_columns c p buffer from t mel) e' ∙ ap (λ m. fill_columns c p buffer m k mel) e
  fill_columns-add buffer from (suc n) k middle zero mel at all = ground arith
  fill_columns-add buffer from (suc n) k middle (suc turns) mel at all =
      >>=-cong (column_at c p buffer from) (write_column buffer from turns mel)
        (λ column. write_column buffer from n mel column >>= fill_columns c p buffer middle k)
        (λ column.
          >>=-cong (refuse_if (not (ltb from (length mel))) panicked) _ _ (λ done.
            fill_columns-add buffer (suc from) n k middle turns (set mel from column)
              (omega (arith, at)) (omega (arith, all)))
          ∙ sym (>>=-assoc (refuse_if (not (ltb from (length mel))) panicked) _ _))
      ∙ sym (>>=-assoc (column_at c p buffer from) (write_column buffer from n mel) _)

  -- A frame within the samples of a prefix.
  sample_at-append :
      (buffer more : List V) (index : ℕ)
      → index < length buffer
      → sample_at c p (buffer ++ more) index ≡ sample_at c p buffer index
  unfolding sample_at
  sample_at-append buffer more index h =
      let (v, e) = get_elem?-within buffer index h in
      rw
        (
          lt→ltb index (length buffer) h,
          lt→ltb index (length (buffer ++ more)) (omega (arith, h, length-append buffer more)),
          get_elem?-append_left buffer more index e,
          e,
        )
        refl

  read_frame-append :
      (buffer more : List V) (offset sample count : ℕ)
      → offset + (sample + count) ≤ length buffer
      → read_frame c p (buffer ++ more) offset sample count
        ≡ read_frame c p buffer offset sample count
  unfolding read_frame
  read_frame-append buffer more offset sample zero h = refl
  read_frame-append buffer more offset sample (suc count) h =
      >>=-cong_ok (ok_or (checked_add offset sample) index_overflow) _ _ (λ index e.
        let value = checked_add-value offset sample index_overflow e in
        ap
          (λ r. r >>= λ v.
            read_frame c p (buffer ++ more) offset (suc sample) count >>= λ vs. ok (v ∷ vs))
          (sample_at-append buffer more index (omega (arith, value, h)))
        ∙ ap (λ r. sample_at c p buffer index >>= λ v. r >>= λ vs. ok (v ∷ vs))
            (read_frame-append buffer more offset (suc sample) count (omega (arith, h))))

  -- A column whose frame ends within the samples of a prefix.
  column_at-append :
      (buffer more : List V) (time : ℕ)
      → time * c.hop_length + c.fft_length ≤ length buffer
      → column_at c p (buffer ++ more) time ≡ column_at c p buffer time
  unfolding column_at
  column_at-append buffer more time h =
      >>=-cong_ok (ok_or (checked_mul time c.hop_length) offset_overflow) _ _ (λ offset e.
        let value = checked_mul-value time c.hop_length offset_overflow e in
        ap (λ r. r >>= p.frame_log_mel)
          (read_frame-append buffer more offset 0 c.fft_length (omega (arith, value, h))))

  fill_columns-append :
      (buffer more : List V) (from n : ℕ) (mel : List C)
      → ((time : ℕ) → time < from + n → time * c.hop_length + c.fft_length ≤ length buffer)
      → fill_columns c p (buffer ++ more) from n mel ≡ fill_columns c p buffer from n mel
  unfolding fill_columns
  fill_columns-append buffer more from zero mel h = refl
  fill_columns-append buffer more from (suc n) mel h =
      ap (λ r. r >>= write_column (buffer ++ more) from n mel)
        (column_at-append buffer more from (h from (omega arith)))
      ∙ >>=-cong (column_at c p buffer from) (write_column (buffer ++ more) from n mel)
          (write_column buffer from n mel)
          (λ column.
            ap (λ r. refuse_if (not (ltb from (length mel))) panicked >> r)
              (fill_columns-append buffer more (suc from) n (set mel from column)
                (λ time k. h time (omega (arith, k)))))

  real_frames-within :
      (samples time : ℕ)
      → 0 < c.hop_length
      → time < real_frames c p samples
      → time * c.hop_length + c.fft_length ≤ samples
  unfolding real_frames
  real_frames-within samples time hop h = elim (Bool-cases (leb c.fft_length samples)) [
    | inl k ↦
        let below : time < (samples - c.fft_length) / c.hop_length + 1 =
          subst (λ b. time < (if b then (samples - c.fft_length) / c.hop_length + 1 else 0)) k h in
        let product =
          (le-div_iff_mul-le {x = time} {y = samples - c.fft_length} hop).0
            (omega (arith, below)) in
        omega (arith, product, leb→le c.fft_length samples k)
    | inr k ↦
        let below : time < 0 =
          subst (λ b. time < (if b then (samples - c.fft_length) / c.hop_length + 1 else 0)) k h in
        omega (arith, below)
  ]

  real_frames-le :
      (samples : ℕ)
      → 0 < c.hop_length
      → 0 < c.fft_length
      → real_frames c p samples ≤ div_ceil samples c.hop_length
  unfolding real_frames div_ceil
  real_frames-le samples hop fft = elim (Bool-cases (leb c.fft_length samples)) [
    | inl k ↦
        let q = div-mul-le_self (samples - c.fft_length) c.hop_length in
        let bound : ((samples - c.fft_length) / c.hop_length + 1) * c.hop_length
            ≤ samples + (c.hop_length - 1) =
          omega (arith, q, hop, fft, leb→le c.fft_length samples k) in
        subst
          (λ b.
            (if b then (samples - c.fft_length) / c.hop_length + 1 else 0)
            ≤ (samples + (c.hop_length - 1)) / c.hop_length)
          (sym k)
          ((le-div_iff_mul-le {x = (samples - c.fft_length) / c.hop_length + 1}
              {y = samples + (c.hop_length - 1)} hop).1
            bound)
    | inr k ↦
        subst
          (λ b.
            (if b then (samples - c.fft_length) / c.hop_length + 1 else 0)
            ≤ (samples + (c.hop_length - 1)) / c.hop_length)
          (sym k) (omega arith)
  ]

  padded_frames_mono :
      (m n : ℕ) → 0 < c.hop_length → m ≤ n → padded_frames c p m ≤ padded_frames c p n
  unfolding padded_frames div_ceil
  padded_frames_mono m n hop h =
      let q = div-mul-le_self (m + (c.hop_length - 1)) c.hop_length in
      let mono =
        (le-div_iff_mul-le {x = (m + (c.hop_length - 1)) / c.hop_length}
            {y = n + (c.hop_length - 1)} hop).1
          (omega (arith, q, h)) in
      omega (arith, mono)

  -- Filling the window afresh.
  abbrev pub fresh_columns : List V → Result StreamError (List C)
  fresh_columns buffer = fill_columns c p buffer 0 (padded_frames c p (length buffer)) c.noise_mel

  -- The columns of a window are those of the samples at the last decode.
  abbrev pub Cached : Window V C → Type 0
  Cached w =
      (decoded : List V) × (more : List V) × (w.buffer ≡ decoded ++ more)
      × (fresh_columns decoded ≡ ok w.mel)
      × (w.real_full_frames ≡ min (real_frames c p (length decoded)) c.full_frames)

  pub fresh_columns-nil : 0 < c.hop_length → fresh_columns [] ≡ ok c.noise_mel
  unfolding fill_columns padded_frames div_ceil
  fresh_columns-nil hop =
      let none_there : (0 + (c.hop_length - 1)) / c.hop_length ≡ 0 =
        div-eq_of_lt (omega (arith, hop)) in
      let e : min ((0 + (c.hop_length - 1)) / c.hop_length) c.full_frames ≡ 0 =
        omega (arith, none_there) in
      ap (λ n. fill_columns c p [] 0 n c.noise_mel) e

  pub real_frames-nil : 0 < c.fft_length → real_frames c p 0 ≡ 0
  unfolding real_frames
  real_frames-nil fft = ground (arith, fft)

  update_from :
      (decoded more : List V) (mel : List C) (real : ℕ)
      → 0 < c.hop_length
      → 0 < c.fft_length
      → fresh_columns decoded ≡ ok mel
      → real ≡ min (real_frames c p (length decoded)) c.full_frames
      → fill_columns c p
          (decoded ++ more)
          real
          (padded_frames c p (length (decoded ++ more)) - real)
          mel
        ≡ fresh_columns (decoded ++ more)
  unfolding padded_frames
  update_from decoded more mel real hop fft fresh is_real =
      let n = length decoded in
      let total = length (decoded ++ more) in
      let le_real : real ≤ padded_frames c p n = omega (arith, is_real, real_frames-le n hop fft) in
      let longer : n ≤ total = omega (arith, length-append decoded more) in
      let le_total : padded_frames c p n ≤ padded_frames c p total =
        padded_frames_mono n total hop longer in
      let parted =
        fill_columns-add decoded 0 real (padded_frames c p n - real) real (padded_frames c p n)
          c.noise_mel (omega arith) (omega (arith, le_real)) in
      let (filled, first, last) =
        >>=-eq-ok (fill_columns c p decoded 0 real c.noise_mel) _ (sym parted ∙ fresh) in
      let outside =
        Outside-more real (padded_frames c p n - real) (padded_frames c p total - real) filled mel
          (omega (arith, le_total))
          (fill_columns-Outside decoded real (padded_frames c p n - real) filled last) in
      let within =
        fill_columns-append decoded more 0 real c.noise_mel
          (λ time h. real_frames-within n time hop (omega (arith, h, is_real))) in
      let parted' =
        fill_columns-add (decoded ++ more) 0 real (padded_frames c p total - real) real
          (padded_frames c p total) c.noise_mel (omega arith) (omega (arith, le_real, le_total)) in
      sym (
        fill_columns-same (decoded ++ more) real (padded_frames c p total - real) filled mel
          outside)
      ∙ sym (
          parted'
          ∙ ap (λ r. r >>= fill_columns c p (decoded ++ more) real (padded_frames c p total - real))
              (within ∙ first))

  -- For a positive hop and frame length, and columns kept that are those of the samples at the last
  -- decode: computing only the columns that are not yet there gives those of the whole window
  -- computed afresh, or fails with the same error.
  pub update_columns-fresh :
      (w : Window V C)
      → 0 < c.hop_length
      → 0 < c.fft_length
      → Cached w
      → update_columns c p w ≡ fresh_columns w.buffer
  unfolding update_columns
  update_columns-fresh w hop fft (decoded, more, split, fresh, is_real) =
      subst
        (λ buffer.
          fill_columns c p buffer w.real_full_frames
            (padded_frames c p (length buffer) - w.real_full_frames) w.mel
          ≡ fresh_columns buffer)
        (sym split) (update_from decoded more w.mel w.real_full_frames hop fft fresh is_real)
