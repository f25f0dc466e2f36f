-- ===== src/Decode/Places.antt =====
-- The places of characters, counted in the characters before them, against LocationTracker.
use xmlparser.Prelude.{
  ℕ, suc, ◌+◌, true, false, List, [], ◌∷◌, ◌++◌, append_assoc, append-nil, ◌==◌, if◌then◌else◌,
  length, length-append, Bool-cases, ◌≡◌, refl, sym, ap, subst, ◌∙◌, arith, inl, inr, Bytes,
}
use xmlparser.Errors.{SourceLocation}
use xmlparser.Decode.{DecodedChar, LocationTracker, current, track, new_tracker}

-- How often the text changes to a new line.
abbrev pub newlines : List ℕ → ℕ
newlines [] = 0
newlines (v ∷ vs) = if v == 10 then suc (newlines vs) else newlines vs

-- The characters behind the last change of the line.
abbrev pub last_line : List ℕ → List ℕ
last_line [] = []
last_line (v ∷ vs) = if newlines (v ∷ vs) == 0 then v ∷ vs else last_line vs

-- The place behind the characters `seen`, which the input has from `start` on.
abbrev pub place_behind : (List ℕ → Bytes) → ℕ → List ℕ → SourceLocation
place_behind encode start seen = record {
  line = newlines seen + 1;
  column = length (last_line seen) + 1;
  byte_offset = start + length (encode seen);
}

-- Each character with the place behind those before it.
abbrev pub placed : (List ℕ → Bytes) → ℕ → List ℕ → List ℕ → List DecodedChar
placed encode start seen [] = []
placed encode start seen (v ∷ vs) =
    record { value = v; location = place_behind encode start seen }
    ∷ placed encode start (seen ++ v ∷ []) vs

-- The same by the tracker; `char_bytes` is the text of a character.
abbrev pub locate : (ℕ → Bytes) → LocationTracker → ℕ → List ℕ → List DecodedChar
locate char_bytes t offset [] = []
locate char_bytes t offset (v ∷ vs) =
    record { value = v; location = current t offset }
    ∷ locate char_bytes (track t v) (offset + length (char_bytes v)) vs

abbrev pub track_all : LocationTracker → List ℕ → LocationTracker
track_all t [] = t
track_all t (v ∷ vs) = track_all (track t v) vs

newlines-snoc :
    (vs : List ℕ) (v : ℕ)
    → newlines (vs ++ v ∷ []) ≡ (if v == 10 then suc (newlines vs) else newlines vs)
newlines-snoc [] v = refl
newlines-snoc (w ∷ vs) v = ground (arith, newlines-snoc vs v)

last_line-newline : (vs : List ℕ) (v : ℕ) → (v == 10) ≡ true → last_line (vs ++ v ∷ []) ≡ []
last_line-newline [] v e = rw (e) refl
last_line-newline (w ∷ vs) v e =
    let more : (newlines (w ∷ (vs ++ v ∷ [])) == 0) ≡ false =
      ground (arith, newlines-snoc vs v, e) in
    rw (more) (last_line-newline vs v e)

last_line-other :
    (vs : List ℕ) (v : ℕ) → (v == 10) ≡ false → last_line (vs ++ v ∷ []) ≡ last_line vs ++ v ∷ []
last_line-other [] v e = rw (e) refl
last_line-other (w ∷ vs) v e =
    let same : newlines (w ∷ (vs ++ v ∷ [])) ≡ newlines (w ∷ vs) =
      ground (arith, newlines-snoc vs v, e) in
    elim (Bool-cases (newlines (w ∷ vs) == 0)) [
      | inl one ↦ rw (same, one) refl
      | inr more ↦ rw (same, more) (last_line-other vs v e)
    ]

-- The tracker has seen these characters.
abbrev pub Tracks : LocationTracker → List ℕ → Type 0
Tracks t seen = (t.line ≡ newlines seen + 1) × (t.column ≡ length (last_line seen) + 1)

Tracks-track :
    (t : LocationTracker) (seen : List ℕ) (v : ℕ)
    → Tracks t seen
    → Tracks (track t v) (seen ++ v ∷ [])
unfolding track
Tracks-track t seen v (line, column) = elim (Bool-cases (v == 10)) [
  | inl e ↦ rw (e) (
    ground (arith, line, newlines-snoc seen v, e),
    ap (λ (xs : List ℕ). length xs + 1) (sym (last_line-newline seen v e)),
  )
  | inr e ↦ rw (e) (
    ground (arith, line, newlines-snoc seen v, e),
    omega (arith, column, length-append (last_line seen) (v ∷ []))
        ∙ ap (λ (xs : List ℕ). length xs + 1) (sym (last_line-other seen v e)),
  )
]

pub Tracks-track_all :
    (t : LocationTracker) (seen vs : List ℕ) → Tracks t seen → Tracks (track_all t vs) (seen ++ vs)
Tracks-track_all t seen [] h = subst (Tracks t) (sym (append-nil seen)) h
Tracks-track_all t seen (v ∷ vs) h =
    subst (Tracks (track_all (track t v) vs)) (append_assoc seen (v ∷ []) vs)
      (Tracks-track_all (track t v) (seen ++ v ∷ []) vs (Tracks-track t seen v h))

pub Tracks-new : Tracks new_tracker []
Tracks-new = (refl, refl)

pub current-Tracks :
    (encode : List ℕ → Bytes) (start offset : ℕ) (t : LocationTracker) (seen : List ℕ)
    → Tracks t seen
    → offset ≡ start + length (encode seen)
    → current t offset ≡ place_behind encode start seen
unfolding current
current-Tracks encode start offset t seen (line, column) e = rw (line, column, e) refl

module _ (encode : List ℕ → Bytes) (char_bytes : ℕ → Bytes)
    (one_more : (xs : List ℕ) (v : ℕ)
      → length (encode (xs ++ v ∷ [])) ≡ length (encode xs) + length (char_bytes v)) where
  pub locate-placed :
      (start offset : ℕ) (t : LocationTracker) (seen vs : List ℕ)
      → Tracks t seen
      → offset ≡ start + length (encode seen)
      → locate char_bytes t offset vs ≡ placed encode start seen vs
  locate-placed start offset t seen [] h e = refl
  locate-placed start offset t seen (v ∷ vs) h e =
      let rest =
        locate-placed start (offset + length (char_bytes v)) (track t v) (seen ++ v ∷ []) vs
          (Tracks-track t seen v h) (omega (arith, e, one_more seen v)) in
      rw (current-Tracks encode start offset t seen h e, rest) refl
