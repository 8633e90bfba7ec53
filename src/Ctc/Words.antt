-- ===== src/Ctc/Words.antt =====
-- `word_token_spans`: the tokens of each word. A piece of the vocabulary is its list of code
-- points; `is_whitespace` is `char::is_whitespace`.
use gigaam_v3_runtime.Base.{
  ℕ, zero, suc, ◌+◌, ◌≤◌, ◌<◌, ◌≡◌, refl, ap, subst, All, Bool, true, false, not, ◌&&◌, Option,
  none, some, List, [], ◌∷◌, ◌++◌, arith, if◌then◌else◌, ◌==◌, is_empty, length, get_elem?,
}
use gigaam_v3_runtime.Ctc.{Token}

abbrev word_marker : ℕ
word_marker = 0x2581

abbrev pub Piece : Type 0
Piece = List ℕ

unfoldable pub trim_start_markers : Piece → Piece
trim_start_markers [] = []
trim_start_markers (c ∷ rest) = if c == word_marker then trim_start_markers rest else c ∷ rest

unfoldable pub starts_with_marker : Piece → Bool
starts_with_marker [] = false
starts_with_marker (c ∷ rest) = c == word_marker

-- `vocabulary[token.id()]` of each token; `none` is the panic.
unfoldable pub pieces_of : {V : Type 0} → List Piece → List (Token V) → Option (List Piece)
pieces_of vocabulary [] = some []
pieces_of vocabulary (token ∷ rest) = elim (get_elem? vocabulary token.id) [
  | none ↦ none
  | some piece ↦ elim (pieces_of vocabulary rest) [
    | none ↦ none
    | some pieces ↦ some (piece ∷ pieces)
  ]
]

pub record WordScan : Type 0 where
  pub spans : List (ℕ × ℕ)
  pub current : Piece
  pub first : ℕ
  pub last : ℕ

-- Spans from `low` on and below `high`, in order, without overlap, each with its ends in order.
abbrev pub AreSpans : ℕ → ℕ → List (ℕ × ℕ) → Type 0
AreSpans low high [] = Unit
AreSpans low high ((a, b) ∷ rest) = (low ≤ a) × (a ≤ b) × (b < high) × AreSpans (suc b) high rest

module _ (is_whitespace : ℕ → Bool) where
  -- `text.trim().is_empty()`.
  unfoldable pub is_blank : Piece → Bool
  is_blank [] = true
  is_blank (c ∷ rest) = is_whitespace c && is_blank rest

  -- `spans.push((first, last))`, unless the text is blank.
  unfoldable pub push_span : WordScan → List (ℕ × ℕ)
  push_span s = if is_blank s.current then s.spans else (s.spans ++ ((s.first, s.last) ∷ []))

  -- The end of the word before a piece that begins with the marker.
  unfoldable pub flush : Piece → WordScan → WordScan
  flush piece s =
      if starts_with_marker piece && not (is_empty s.current)
      then record s { spans = push_span s; current = [] }
      else s

  -- The rest of the turn of the loop.
  unfoldable pub take_piece : ℕ → Piece → WordScan → WordScan
  take_piece index piece s = record s {
    first = if is_empty s.current then index else s.first;
    last = index;
    current = s.current ++ trim_start_markers piece;
  }

  unfoldable pub scan_pieces : ℕ → List Piece → WordScan → WordScan
  scan_pieces index [] s = s
  scan_pieces index (piece ∷ rest) s =
      scan_pieces (suc index) rest (take_piece index piece (flush piece s))

  unfoldable pub finish_words : WordScan → List (ℕ × ℕ)
  finish_words s =
      if not (is_empty s.current) && not (is_blank s.current)
      then s.spans ++ ((s.first, s.last) ∷ [])
      else s.spans

  unfoldable pub word_token_spans :
      {V : Type 0} → List (Token V) → List Piece → Option (List (ℕ × ℕ))
  word_token_spans tokens vocabulary = elim (pieces_of vocabulary tokens) [
    | none ↦ none
    | some pieces ↦ some (
        finish_words
          (scan_pieces 0 pieces (record { spans = []; current = []; first = 0; last = 0 })))
  ]

  AreSpans-high :
      (low m high : ℕ) (xs : List (ℕ × ℕ)) → m ≤ high → AreSpans low m xs → AreSpans low high xs
  AreSpans-high low m high [] h s = tt
  AreSpans-high low m high ((a, b) ∷ xs) h (p, q, r, t) =
      (p, q, omega arith, AreSpans-high (suc b) m high xs h t)

  AreSpans-append :
      (low m a b high : ℕ) (xs : List (ℕ × ℕ))
      → low ≤ m
      → m ≤ a
      → a ≤ b
      → b < high
      → AreSpans low m xs
      → AreSpans low high (xs ++ ((a, b) ∷ []))
  AreSpans-append low m a b high [] l h k t s = (omega arith, k, t, tt)
  AreSpans-append low m a b high ((c, d) ∷ xs) l h k t (p, q, r, u) =
      (p, q, omega arith, AreSpans-append (suc d) m a b high xs (omega arith) h k t u)

  -- Before the piece at `index`: the open word, if there is one, ends just before it.
  abbrev ScannedAt : ℕ → List (ℕ × ℕ) → Piece → ℕ → ℕ → Type 0
  ScannedAt index spans [] first last = AreSpans 0 index spans
  ScannedAt index spans (c ∷ rest) first last =
      AreSpans 0 first spans × (first ≤ last) × (suc last ≡ index)

  abbrev Scanned : ℕ → WordScan → Type 0
  Scanned index s = ScannedAt index s.spans s.current s.first s.last

  -- A span is pushed or left out.
  pushed :
      (blank : Bool) (index first last : ℕ) (spans : List (ℕ × ℕ))
      → AreSpans 0 first spans
      → first ≤ last
      → suc last ≡ index
      → AreSpans 0 index (if blank then spans else (spans ++ ((first, last) ∷ [])))
  pushed true index first last spans h k e = AreSpans-high 0 first index spans (omega arith) h
  pushed false index first last spans h k e =
      AreSpans-append 0 first first last index spans (omega arith) (omega arith) k (omega arith) h

  flush_at :
      (starts : Bool) (index first last : ℕ) (spans : List (ℕ × ℕ)) (current : Piece)
      → ScannedAt index spans current first last
      → Scanned index (
          if starts && not (is_empty current)
          then (record {
            spans = if is_blank current then spans else (spans ++ ((first, last) ∷ []));
            current = [];
            first = first;
            last = last;
          })
          else (record { spans = spans; current = current; first = first; last = last }))
  flush_at true index first last spans [] h = h
  flush_at true index first last spans (c ∷ rest) (h, k, e) =
      pushed (is_blank (c ∷ rest)) index first last spans h k e
  flush_at false index first last spans [] h = h
  flush_at false index first last spans (c ∷ rest) h = h

  flush-Scanned :
      (index : ℕ) (piece : Piece) (s : WordScan) → Scanned index s → Scanned index (flush piece s)
  unfolding flush push_span
  flush-Scanned index piece s h =
      flush_at (starts_with_marker piece) index s.first s.last s.spans s.current h

  taken :
      (index first last : ℕ) (spans : List (ℕ × ℕ)) (current new : Piece)
      → ScannedAt index spans current first last
      → ScannedAt
          (suc index)
          spans
          (current ++ new)
          (if is_empty current then index else first)
          index
  taken index first last spans [] [] h = AreSpans-high 0 index (suc index) spans (omega arith) h
  taken index first last spans [] (c ∷ rest) h = (h, omega arith, refl)
  taken index first last spans (c ∷ rest) new (h, k, e) = (h, omega arith, refl)

  take_piece-Scanned :
      (index : ℕ) (piece : Piece) (s : WordScan)
      → Scanned index s
      → Scanned (suc index) (take_piece index piece s)
  unfolding take_piece
  take_piece-Scanned index piece s h =
      taken index s.first s.last s.spans s.current (trim_start_markers piece) h

  scan_pieces-Scanned :
      (index : ℕ) (pieces : List Piece) (s : WordScan)
      → Scanned index s
      → Scanned (index + length pieces) (scan_pieces index pieces s)
  unfolding scan_pieces
  scan_pieces-Scanned index [] s h = subst (λ n. Scanned n s) (omega arith) h
  scan_pieces-Scanned index (piece ∷ rest) s h =
      subst (λ n. Scanned n (scan_pieces (suc index) rest (take_piece index piece (flush piece s))))
        (omega arith)
        (scan_pieces-Scanned (suc index) rest _
          (take_piece-Scanned index piece (flush piece s) (flush-Scanned index piece s h)))

  finished :
      (blank : Bool) (index first last : ℕ) (spans : List (ℕ × ℕ)) (current : Piece)
      → ScannedAt index spans current first last
      → AreSpans 0 index
          (if not (is_empty current) && not blank then spans ++ ((first, last) ∷ []) else spans)
  finished blank index first last spans [] h = h
  finished true index first last spans (c ∷ rest) (h, k, e) =
      pushed true index first last spans h k e
  finished false index first last spans (c ∷ rest) (h, k, e) =
      pushed false index first last spans h k e

  piece_at :
      (vocabulary : List Piece) (i : ℕ)
      → i < length vocabulary
      → (piece : Piece) × (get_elem? vocabulary i ≡ some piece)
  piece_at [] i h = absurd (omega arith)
  piece_at (piece ∷ rest) zero h = (piece, refl)
  piece_at (piece ∷ rest) (suc i) h = piece_at rest i (omega arith)

  total_length : {m n : ℕ} → m ≡ n → 0 + m ≡ n
  total_length h = omega (arith, h)

  pieces_of-total :
      {V : Type 0} (vocabulary : List Piece) (tokens : List (Token V))
      → All (λ (t : Token V). t.id < length vocabulary) tokens
      → (pieces : List Piece) × (pieces_of vocabulary tokens ≡ some pieces)
        × (length pieces ≡ length tokens)
  unfolding pieces_of
  pieces_of-total vocabulary [] known = ([], refl, refl)
  pieces_of-total vocabulary (token ∷ rest) (below, known) =
      let (piece, found) = piece_at vocabulary token.id below in
      let (pieces, made, n) = pieces_of-total vocabulary rest known in
      (piece ∷ pieces, rw (found, made, pieces_of) refl, ap suc n)

  -- When every token is in the vocabulary, there are word spans: in order, without overlap, each
  -- from a token to the same or a later one of the given tokens.
  pub word_token_spans-AreSpans :
      {V : Type 0} (tokens : List (Token V)) (vocabulary : List Piece)
      → All (λ (t : Token V). t.id < length vocabulary) tokens
      → (spans : List (ℕ × ℕ)) × (word_token_spans tokens vocabulary ≡ some spans)
        × AreSpans 0 (length tokens) spans
  unfolding word_token_spans finish_words
  word_token_spans-AreSpans tokens vocabulary known =
      let (pieces, made, n) = pieces_of-total vocabulary tokens known in
      let s = scan_pieces 0 pieces (record { spans = []; current = []; first = 0; last = 0 }) in
      (
        finish_words s,
        rw (made, word_token_spans) refl,
        subst (λ k. AreSpans 0 k (finish_words s)) (total_length n)
            (finished (is_blank s.current) (0 + length pieces) s.first s.last s.spans s.current
              (scan_pieces-Scanned 0 pieces _ tt)),
      )
