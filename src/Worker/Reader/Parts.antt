-- ===== src/Worker/Reader/Parts.antt =====
-- The hashes of the parts, as `streamDecryptedRecording` checks them while the bytes come in, and as
-- they are on the bytes of the whole object.
use understandproof.Base.{
  ℕ, zero, suc, ◌+◌, ◌≤◌, ◌<◌, min, ◌≡◌, refl, sym, ap, subst, ◌∙◌, inl, inr, Bool, true, false,
  ◌&&◌, List, [], ◌∷◌, ◌++◌, append_assoc, append-nil, Option, none, some, Text, text_eq, arith,
  length, take, drop, get_elem?, All, length-append, length-take, length-drop, take-append,
  drop-append, drop-all, take-append-drop, drop-get_elem?, get_elem?-none, get_elem?-some,
  Option-cases, Bool-cases, leb, nat_eqb, ◌==◌, ok, throw, Outcome-cases, if_either,
}
use mathlib.Core.Option.{some-injective}
use understandproof.Media.Bytes.{Bytes}
use understandproof.Media.Manifest.{ManifestPart}
use understandproof.Worker.Reader.{
  Reading, PartState, start_part, take_bytes, is_part_hash, close_part, feed_part, feed_parts,
}

module _ (sha256_hex : Bytes → Text) where
  -- Whether bytes are the parts, one after the other.
  unfoldable pub parts_match : List ManifestPart → Bytes → Bool
  parts_match [] bytes = nat_eqb (length bytes) 0
  parts_match (p ∷ ps) bytes =
      leb p.byte_length (length bytes)
      && sha256_hex (take p.byte_length bytes) == p.sha256
      && parts_match ps (drop p.byte_length bytes)

  -- Whether the object is one that the parts describe, when these bytes are still to come.
  abbrev pub parts_left : List ManifestPart → PartState → Bytes → Bool
  parts_left parts s future = parts_match (drop s.part_index parts) (s.part_bytes ++ future)

-- Where the loop stands: in a part that is not complete, or past the last one.
abbrev StandsIn : List ManifestPart → PartState → Option ManifestPart → Type 0
StandsIn parts s none = (s.part_remaining ≡ 0) × (s.part_bytes ≡ []) × (s.part_index ≡ length parts)
StandsIn parts s (some p) =
    (s.part_remaining + length s.part_bytes ≡ p.byte_length) × (1 ≤ s.part_remaining)

abbrev pub PartsInvariant : List ManifestPart → PartState → Type 0
PartsInvariant parts s =
    (s.part_index ≤ length parts) × StandsIn parts s (get_elem? parts s.part_index)

abbrev pub NonEmpty : ManifestPart → Type 0
NonEmpty p = 1 ≤ p.byte_length

at-NonEmpty :
    (parts : List ManifestPart) (i : ℕ) (p : ManifestPart)
    → All NonEmpty parts
    → get_elem? parts i ≡ some p
    → NonEmpty p
at-NonEmpty [] i p h e = ground arith
at-NonEmpty (q ∷ qs) zero p h e = subst NonEmpty (some-injective q p e) h.0
at-NonEmpty (q ∷ qs) (suc i) p h e = at-NonEmpty qs i p h.1 e

pub start_part-PartsInvariant :
    (parts : List ManifestPart) (i : ℕ)
    → All NonEmpty parts
    → i ≤ length parts
    → PartsInvariant parts (start_part parts i)
unfolding start_part
start_part-PartsInvariant parts i h bound = elim (Option-cases (get_elem? parts i)) [
  | inl missing ↦
      rw missing (bound, (refl, refl, omega (arith, bound, get_elem?-none i parts missing)))
  | inr (p, here) ↦ rw here (bound, (omega arith, at-NonEmpty parts i p h here))
]

split_bytes :
    (bytes incoming future : Bytes) (n : ℕ)
    → bytes ++ (incoming ++ future) ≡ (bytes ++ take n incoming) ++ (drop n incoming ++ future)
split_bytes bytes incoming future n =
    rw
      (
        append_assoc,
        sym (append_assoc (take n incoming) (drop n incoming) future),
        take-append-drop n incoming,
      )
      refl

module _ (sha256_hex : Bytes → Text) where
  parts_match_whole :
      (p : ManifestPart) (ps : List ManifestPart) (part rest : Bytes)
      → length part ≡ p.byte_length
      → parts_match sha256_hex (p ∷ ps) (part ++ rest)
        ≡ (sha256_hex part == p.sha256 && parts_match sha256_hex ps rest)
  unfolding parts_match
  parts_match_whole p ps part rest e =
      rw (sym e, take-append part rest, drop-append part rest, length-append part rest)
        (ground arith)

  parts_match_rest : (bytes : Bytes) → 1 ≤ length bytes → parts_match sha256_hex [] bytes ≡ false
  unfolding parts_match
  parts_match_rest bytes h = ground (arith, h)

  pub parts_match_short :
      (p : ManifestPart) (ps : List ManifestPart) (bytes : Bytes)
      → length bytes < p.byte_length
      → parts_match sha256_hex (p ∷ ps) bytes ≡ false
  unfolding parts_match
  parts_match_short p ps bytes e = ground (arith, e)

  -- What a call of the loop says of an object that is the parts' exactly if `whole` is true.
  abbrev pub Fed : Bool → List ManifestPart → Bytes → Reading PartState → Type 0
  Fed whole parts future (ok t) =
      PartsInvariant parts t × (whole ≡ parts_left sha256_hex parts t future)
  Fed whole parts future (throw e) = whole ≡ false

  parts_left_full :
      (parts : List ManifestPart) (s : PartState) (p : ManifestPart) (future : Bytes)
      → get_elem? parts s.part_index ≡ some p
      → length s.part_bytes ≡ p.byte_length
      → parts_left sha256_hex parts s future ≡ (
          sha256_hex s.part_bytes == p.sha256
          && parts_match sha256_hex (drop (suc s.part_index) parts) future)
  parts_left_full parts s p future here full =
      rw (drop-get_elem? s.part_index parts p here)
        (parts_match_whole p (drop (suc s.part_index) parts) s.part_bytes future full)

  close_part-Fed :
      (parts : List ManifestPart) (s : PartState) (p : ManifestPart) (future : Bytes)
      → All NonEmpty parts
      → get_elem? parts s.part_index ≡ some p
      → length s.part_bytes ≡ p.byte_length
      → Fed (parts_left sha256_hex parts s future) parts future (close_part sha256_hex parts s)
  unfolding close_part is_part_hash start_part
  close_part-Fed parts s p future h here full =
      let before = parts_left_full parts s p future here full in
      elim (Bool-cases (sha256_hex s.part_bytes == p.sha256)) [
        | inl same ↦
            rw (here, same)
              (
                start_part-PartsInvariant parts (suc s.part_index) h
                    (get_elem?-some s.part_index parts p here),
                before ∙ rw same refl,
              )
        | inr different ↦ rw (here, different) (before ∙ rw different refl)
      ]

  take_bytes-parts_left :
      (parts : List ManifestPart) (s : PartState) (incoming future : Bytes)
      → parts_left sha256_hex parts s (incoming ++ future)
        ≡ parts_left sha256_hex parts
            (take_bytes s incoming)
            (drop (min s.part_remaining (length incoming)) incoming ++ future)
  unfolding take_bytes
  take_bytes-parts_left parts s incoming future =
      ap (parts_match sha256_hex (drop s.part_index parts))
        (split_bytes s.part_bytes incoming future (min s.part_remaining (length incoming)))

  take_bytes-size :
      (s : PartState) (incoming : Bytes)
      → ((take_bytes s incoming).part_remaining + length (take_bytes s incoming).part_bytes
          ≡ s.part_remaining + length s.part_bytes)
        × ((take_bytes s incoming).part_index ≡ s.part_index)
  unfolding take_bytes
  take_bytes-size s incoming =
      let taken = min s.part_remaining (length incoming) in
      (
        omega (arith, length-append s.part_bytes (take taken incoming), length-take taken incoming),
        refl,
      )

  feed_part-in_part :
      (parts : List ManifestPart) (s : PartState) (p : ManifestPart) (incoming future : Bytes)
      → All NonEmpty parts
      → PartsInvariant parts s
      → get_elem? parts s.part_index ≡ some p
      → 1 ≤ length incoming
      → Fed
          (parts_left sha256_hex parts s (incoming ++ future))
          parts
          (drop (min s.part_remaining (length incoming)) incoming ++ future)
          (feed_part sha256_hex parts s incoming)
  unfolding feed_part
  feed_part-in_part parts s p incoming future h stands here some_come =
      let rest = drop (min s.part_remaining (length incoming)) incoming ++ future in
      let inside : StandsIn parts s (some p) = subst (StandsIn parts s) here stands.1 in
      let size = take_bytes-size s incoming in
      let taking : leb (min s.part_remaining (length incoming)) 0 ≡ false =
        ground (arith, inside.1, some_come) in
      rw (taking, take_bytes-parts_left parts s incoming future)
        (if_either (Fed (parts_left sha256_hex parts (take_bytes s incoming) rest) parts rest)
          (nat_eqb (take_bytes s incoming).part_remaining 0)
          (close_part sha256_hex parts (take_bytes s incoming)) (ok (take_bytes s incoming))
          (λ full.
            close_part-Fed parts (take_bytes s incoming) p rest h
              (ap (get_elem? parts) size.1 ∙ here) (ground (arith, inside.0, size.0, full)))
          (λ more. (
            (
              omega (arith, size.1, stands.0),
              subst (StandsIn parts (take_bytes s incoming))
                  (sym (ap (get_elem? parts) size.1 ∙ here))
                  (omega (arith, inside.0, size.0), ground (arith, more)),
            ),
            refl,
          )))

  feed_part-Fed :
      (parts : List ManifestPart) (s : PartState) (incoming future : Bytes)
      → All NonEmpty parts
      → PartsInvariant parts s
      → 1 ≤ length incoming
      → Fed
          (parts_left sha256_hex parts s (incoming ++ future))
          parts
          (drop (min s.part_remaining (length incoming)) incoming ++ future)
          (feed_part sha256_hex parts s incoming)
  unfolding feed_part
  feed_part-Fed parts s incoming future h stands some_come =
      elim (Option-cases (get_elem? parts s.part_index)) [
        | inl missing ↦
            let (spent, clear, last) : StandsIn parts s none =
              subst (StandsIn parts s) missing stands.1 in
            let nothing : leb (min s.part_remaining (length incoming)) 0 ≡ true =
              ground (arith, spent) in
            rw (nothing, clear, drop-all s.part_index parts (omega (arith, last)))
              (parts_match_rest (incoming ++ future)
                (omega (arith, some_come, length-append incoming future)))
        | inr (p, here) ↦ feed_part-in_part parts s p incoming future h stands here some_come
      ]

  pub take_bytes-less :
      (parts : List ManifestPart) (s : PartState) (incoming : Bytes) (t : PartState)
      → feed_part sha256_hex parts s incoming ≡ ok t
      → 1 ≤ min s.part_remaining (length incoming)
  unfolding feed_part
  take_bytes-less parts s incoming t e = ground arith

  -- The loop on the bytes of a chunk of the stream, with fuel for each of its bytes.
  pub feed_parts-Fed :
      (fuel : ℕ) (parts : List ManifestPart) (s : PartState) (incoming future : Bytes)
      → All NonEmpty parts
      → PartsInvariant parts s
      → length incoming ≤ fuel
      → Fed
          (parts_left sha256_hex parts s (incoming ++ future))
          parts
          future
          (feed_parts sha256_hex fuel parts s incoming)
  unfolding feed_parts
  feed_parts-Fed fuel parts s [] future h stands enough = (stands, refl)
  feed_parts-Fed zero parts s (b ∷ bs) future h stands enough = absurd (omega (arith, enough))
  feed_parts-Fed (suc fuel) parts s (b ∷ bs) future h stands enough =
      let incoming = b ∷ bs in
      let rest = drop (min s.part_remaining (length incoming)) incoming in
      let whole = parts_left sha256_hex parts s (incoming ++ future) in
      let turn = feed_part-Fed parts s incoming future h stands (omega arith) in
      elim (Outcome-cases (feed_part sha256_hex parts s incoming)) [
        | inl (t, fed) ↦
            let done : Fed whole parts (rest ++ future) (ok t) =
              subst (Fed whole parts (rest ++ future)) fed turn in
            rw (fed, done.1)
              (feed_parts-Fed fuel parts t rest future h done.0 (
                omega (
                  arith,
                  enough,
                  length-drop (min s.part_remaining (length incoming)) incoming,
                  take_bytes-less parts s incoming t fed,
                )))
        | inr (e, refused) ↦ rw refused (subst (Fed whole parts (rest ++ future)) refused turn)
      ]

  -- At the end of the stream.
  pub parts_left_nil :
      (parts : List ManifestPart) (s : PartState)
      → PartsInvariant parts s
      → parts_left sha256_hex parts s []
        ≡ (nat_eqb s.part_index (length parts) && nat_eqb s.part_remaining 0)
  unfolding parts_match
  parts_left_nil parts s stands = elim (Option-cases (get_elem? parts s.part_index)) [
    | inl missing ↦
        let (spent, clear, last) : StandsIn parts s none =
          subst (StandsIn parts s) missing stands.1 in
        rw (spent, clear, drop-all s.part_index parts (omega (arith, last))) (ground (arith, last))
    | inr (p, here) ↦
        let inside : StandsIn parts s (some p) = subst (StandsIn parts s) here stands.1 in
        rw (drop-get_elem? s.part_index parts p here, append-nil s.part_bytes)
          (parts_match_short p (drop (suc s.part_index) parts) s.part_bytes
              (omega (arith, inside.0, inside.1))
            ∙ ground (arith, inside.1))
  ]
