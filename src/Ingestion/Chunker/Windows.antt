-- ===== src/Ingestion/Chunker/Windows.antt =====
-- The windows of a document: the loop ends with chunks, and the chunks hold the text of every token.
use oss.Prelude.{
  ℕ, zero, suc, ◌+◌, ◌-◌, ◌≤◌, ◌<◌, min, true, false, List, [], ◌∷◌, map, ◌≡◌, ◌⊎◌, inl, inr, arith,
  ltb, ◌==◌, Bool-cases, ap, refl, not, ◌&&◌, ◌++◌, ltb→lt, lt→ltb, ==_iff, ltb-false, le_or_lt,
}
use oss.Prelude.Text.{Text, is_empty, contains, starts_with, same_text, same_text_refl}
use oss.Core.Errors.{Result, ok, ◌>>=◌}
use oss.Core.Ids.{
  TextLibrary, strip, component, canonical_chunk_id, chunk_prefix, colon, canonical_document_id,
  document_prefix,
}
use oss.Core.Ids.Unambiguous.{document_id_prefix}
use oss.Ingestion.Normalize.{normalize_text}
use oss.Ingestion.Chunker.{
  TokenEncoding, ChunkerConfig, Chunk, Tokenizer, ChunkerVersion, encode_for_chunker,
  chunk_document, windows, visit, follow, is_new, chunk,
}

-- What follows a call that has returned.
bind_ok {ℓ ℓ'} :
    {X : Type ℓ} {Y : Type ℓ'} (call : Result X) (next : X → Result Y) (x : X)
    → call ≡ ok x
    → (call >>= next) ≡ next x
bind_ok call next x h = ap (λ c. c >>= next) h

-- Chunks of the later windows: positions grow, no text is blank or was seen, and each chunk has at
-- least one token and at most a window of them.
abbrev pub IsOrdered : ℕ → ℕ → List Text → List Chunk → Type 0
IsOrdered window lower seen [] = Unit
IsOrdered window lower seen (c ∷ cs) =
    (lower ≤ c.position)
    × (1 ≤ c.token_count)
    × (c.token_count ≤ window)
    × (is_empty c.text ≡ false)
    × (contains c.text seen ≡ false)
    × IsOrdered window (suc c.position) (c.text ∷ seen) cs

module _ (lib : TextLibrary) (config : ChunkerConfig) (encoding : TokenEncoding) where
  -- Some window has the token, and its text is blank or one of the given ones.
  abbrev pub Covered : List Text → List Text → ℕ → Type 0
  Covered seen texts i =
      (start : ℕ) × (decoded : Text) × (start ≤ i)
      × (i < min (start + config.window_size) encoding.token_count)
      × (encoding.decode start (min (start + config.window_size) encoding.token_count) ≡ ok decoded)
      × ((is_empty (normalize_text lib decoded) ≡ true)
          ⊎ ((contains (normalize_text lib decoded) seen ≡ true)
              ⊎ (contains (normalize_text lib decoded) texts ≡ true)))

  -- A new text counts with the chunks as it did with the texts seen.
  Covered-shift :
      (t : Text) (seen texts : List Text) (i : ℕ)
      → Covered (t ∷ seen) texts i
      → Covered seen (t ∷ texts) i
  unfolding contains
  Covered-shift t seen texts i (start, decoded, low, high, e, inl blank) =
      (start, decoded, low, high, e, inl blank)
  Covered-shift t seen texts i (start, decoded, low, high, e, inr (inr later)) =
      (start, decoded, low, high, e, inr (inr (ground arith)))
  Covered-shift t seen texts i (start, decoded, low, high, e, inr (inl before)) = (
    start,
    decoded,
    low,
    high,
    e,
    elim (Bool-cases (same_text (normalize_text lib decoded) t)) [
      | inl same ↦ inr (inr (rw same refl))
      | inr other ↦ inr (inl (ground arith))
    ],
  )

-- An identifier is built for every chunk of a document that has one.
chunk_id_returns :
    (lib : TextLibrary) (document c : Text) (n : ℕ) (x : Text)
    → starts_with document_prefix document ≡ true
    → component lib document ≡ ok c
    → (i : Text) × (canonical_chunk_id lib document n x ≡ ok i)
unfolding canonical_chunk_id
chunk_id_returns lib document c n x h e = (
  chunk_prefix ++ (c ++ colon ∷ (lib.decimal n ++ colon ∷ lib.content_hash_prefix x)),
  rw (h, e) refl,
)

-- Earlier windows may have taken fewer positions.
IsOrdered-lower :
    (window low high : ℕ) (seen : List Text) (cs : List Chunk)
    → low ≤ high
    → IsOrdered window high seen cs
    → IsOrdered window low seen cs
IsOrdered-lower window low high seen [] le h = tt
IsOrdered-lower window low high seen (c ∷ cs) le h = (omega (arith, h.0), h.1, h.2, h.3, h.4, h.5)

is_new-false :
    (text : Text) (seen : List Text)
    → (not (is_empty text) && not (contains text seen)) ≡ false
    → (is_empty text ≡ true) ⊎ (contains text seen ≡ true)
is_new-false text seen h = ground arith

-- The loop returns chunks in order, which with the texts seen before cover the tokens from here on.
abbrev pub Chunks :
    TextLibrary → ChunkerConfig → TokenEncoding → ℕ → ℕ → List Text → Result (List Chunk) → Type 0
Chunks lib config encoding position start seen result =
    (cs : List Chunk) × (result ≡ ok cs)
    × IsOrdered config.window_size position seen cs
    × ((i : ℕ)
        → start ≤ i
        → i < encoding.token_count
        → Covered lib config encoding seen (map (λ c. c.text) cs) i)

module _ (lib : TextLibrary) (config : ChunkerConfig) (encoding : TokenEncoding)
    (document corpus c : Text) (fits : config.overlap < config.window_size)
    (known : starts_with document_prefix document ≡ true) (named : component lib document ≡ ok c)
    (decodes : (start end : ℕ)
      → start ≤ end
      → end ≤ encoding.token_count
      → (x : Text) × (encoding.decode start end ≡ ok x)) where
  visit-Chunks :
      (position start : ℕ) (decoded : Text) (seen : List Text)
      (next : List Text → Result (List Chunk))
      → start < encoding.token_count
      → encoding.decode start (min (start + config.window_size) encoding.token_count) ≡ ok decoded
      → ((seen : List Text)
          → Chunks lib config encoding
              (suc position)
              (min (start + config.window_size) encoding.token_count)
              seen
              (next seen))
      → Chunks lib config encoding position start seen (
          visit lib config encoding document corpus position start
            (normalize_text lib decoded)
            seen
            next)
  unfolding visit contains
  visit-Chunks position start decoded seen next inside e later =
      let text = normalize_text lib decoded in
      elim (Bool-cases (is_new lib config encoding document corpus text seen)) [
        | inr old ↦
            let (cs, r, ordered, covers) = later seen in
            (
              cs,
              rw old r,
              IsOrdered-lower _ position _ seen cs (omega arith) ordered,
              λ i low high.
                  elim (le_or_lt (min (start + config.window_size) encoding.token_count) i) [
                    | inl after ↦ covers i after high
                    | inr here ↦ (
                      start,
                      decoded,
                      low,
                      here,
                      e,
                      elim (is_new-false text seen old) [
                        | inl blank ↦ inl blank
                        | inr before ↦ inr (inl before)
                      ],
                    )
                  ],
            )
        | inl new ↦
            let (cs, r, ordered, covers) = later (text ∷ seen) in
            let (i, e') = chunk_id_returns lib document c position text known named in
            (
              chunk lib config encoding document corpus i position start text ∷ cs,
              rw (new, e', r) refl,
              (omega arith, omega arith, omega arith, ground arith, ground arith, ordered),
              λ i low high.
                  elim (le_or_lt (min (start + config.window_size) encoding.token_count) i) [
                    | inl after ↦
                        Covered-shift lib config encoding text seen _ i (covers i after high)
                    | inr here ↦
                        (start, decoded, low, here, e, inr (inr (rw (same_text_refl text) refl)))
                  ],
            )
      ]

  windows-Chunks :
      (fuel position start : ℕ) (seen : List Text)
      → encoding.token_count ≤ fuel + start
      → Chunks lib config encoding position start seen
          (windows lib config encoding document corpus fuel position start seen)
  unfolding windows visit contains
  windows-Chunks zero position start seen enough =
      ([], refl, tt, λ i low high. absurd (omega arith))
  windows-Chunks (suc fuel) position start seen enough =
      elim (Bool-cases (ltb start encoding.token_count)) [
        | inr over ↦ (
          [],
          rw over refl,
          tt,
          λ i low high. absurd (omega (arith, ltb-false start _ over, low, high)),
        )
        | inl inside ↦
            let inside = ltb→lt start _ inside in
            let (decoded, e) =
              decodes start (min (start + config.window_size) encoding.token_count) (omega arith)
                (omega arith) in
            rw (lt→ltb _ _ inside, e)
              (visit-Chunks position start decoded seen
                (λ seen.
                  follow lib config encoding document corpus start
                    (λ seen.
                      windows lib config encoding document corpus fuel (suc position)
                        (start + (config.window_size - config.overlap)) seen)
                    seen)
                inside e
                (λ seen.
                  elim (Bool-cases (
                    min (start + config.window_size) encoding.token_count
                    == encoding.token_count)) [
                      | inl last ↦ (
                        [],
                        rw last refl,
                        tt,
                        λ i low high. absurd (omega (arith, (==_iff _ _).0 last)),
                      )
                      | inr more ↦
                          let (cs, r, ordered, covers) =
                            windows-Chunks fuel (suc position)
                              (start + (config.window_size - config.overlap)) seen (omega arith) in
                          (cs, rw more r, ordered, λ i low high. covers i (grind arith) high)
                    ]))
      ]

module _ (lib : TextLibrary) (tokenizer : Tokenizer) (config : ChunkerConfig)
    (version : ChunkerVersion) (dataset source corpus text document c : Text)
    (encoding : TokenEncoding) (fits : config.overlap < config.window_size)
    (versioned : is_empty (strip lib.is_space corpus) ≡ false)
    (filled : is_empty (normalize_text lib text) ≡ false)
    (encoded : encode_for_chunker tokenizer (normalize_text lib text) version ≡ ok encoding)
    (identified : canonical_document_id lib dataset source ≡ ok document)
    (named : component lib document ≡ ok c)
    (decodes : (start end : ℕ)
      → start ≤ end
      → end ≤ encoding.token_count
      → (x : Text) × (encoding.decode start end ≡ ok x)) where
  chunk_document-Chunks :
      Chunks lib config encoding 0 0 []
        (chunk_document lib tokenizer config version dataset source corpus text)
  unfolding chunk_document
  chunk_document-Chunks =
      rw (versioned, filled, encoded, identified)
        (windows-Chunks lib config encoding document corpus c fits
          (document_id_prefix lib dataset source document identified) named decodes
          encoding.token_count 0 0 [] (omega arith))

  -- A document whose tokens can be decoded and whose identifier can be built is cut into chunks at
  -- positions that grow, each of at least one and at most a window of tokens and with a text that is
  -- not blank and unlike all earlier ones.
  pub chunk_document-IsOrdered :
      (cs : List Chunk) × (chunk_document lib tokenizer config version dataset source corpus text
        ≡ ok cs)
      × IsOrdered config.window_size 0 [] cs
  chunk_document-IsOrdered = let (cs, e, ordered, _) = chunk_document-Chunks in (cs, e, ordered)

  -- Leaving out repeated windows loses no text: every token of a document that is cut into chunks
  -- lies in a window whose text is blank or is the text of a chunk.
  pub every_token-Covered :
      (i : ℕ)
      → i < encoding.token_count
      → (cs : List Chunk) × (chunk_document lib tokenizer config version dataset source corpus text
          ≡ ok cs)
        × Covered lib config encoding [] (map (λ c. c.text) cs) i
  every_token-Covered i inside =
      let (cs, e, _, covers) = chunk_document-Chunks in (cs, e, covers i (omega arith) inside)
