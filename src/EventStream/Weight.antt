-- ===== src/EventStream/Weight.antt =====
-- What an event accumulates is no longer than the text it came from; a partial line has no end.
use jmaplib.Prelude.{
  ℕ, ◌+◌, ◌≤◌, Text, codes, false, ◌&&◌, [], ◌∷◌, ◌++◌, Option, ◌≡◌, refl, ap, sym, ◌∙◌, arith,
  nat_beq, list_eq, nat_eq, ◌==◌, ==_iff, length, length-append, All, All-append, Bool-cases, inl,
  inr, remove_prefix, append-nil, append_assoc, subst,
}
use jmaplib.EventStream.{
  Assembly, Scanned, ServerSentEvent, ended, and_then, scan, is_terminator, carriage_return,
  line_feed, consume, set_field, partition_colon, dispatch_event,
}
use jmaplib.EventStream.Scan.{scan_last, scan_crlf, scan_one, scan_go, scan_hold}

pub length-remove_prefix : (s : Text) (c : ℕ) → length (remove_prefix s c) ≤ length s
unfolding remove_prefix
length-remove_prefix [] c = omega arith
length-remove_prefix (d ∷ s) c = ground arith

length-partition_colon :
    (s : Text) → length (partition_colon s).0 + length (partition_colon s).1 ≤ length s
unfolding partition_colon
length-partition_colon [] = omega arith
length-partition_colon (c ∷ s) = ground (arith, length-partition_colon s)

set_field_chars :
    (name value : Text) (a : Assembly)
    → (set_field name value a).line_chars ≤ a.line_chars + length name + length value
unfolding set_field
set_field_chars name value a = elim (Bool-cases (name == codes "data")) [
  | inl same ↦
      let long : length name ≡ 4 = ap length ((==_iff name (codes "data")).0 same) in ground arith
  | inr other ↦ ground arith
]

consume_chars :
    (line : Text) (a : Assembly) → (consume line a).0.line_chars ≤ a.line_chars + length line
unfolding consume dispatch_event
consume_chars [] a = ground arith
consume_chars (c ∷ s) a = ground (
  arith,
  set_field_chars (partition_colon (c ∷ s)).0 (remove_prefix (partition_colon (c ∷ s)).1 b' ') a,
  length-remove_prefix (partition_colon (c ∷ s)).1 b' ',
  length-partition_colon (c ∷ s),
)

abbrev pub weight : Scanned → ℕ
weight r = length r.rest + r.assembly.line_chars

and_then-rest :
    (first : Assembly × Option ServerSentEvent) (next : Assembly → Scanned)
    → (and_then first next).rest ≡ (next first.0).rest
and_then-rest (a, event) next = refl

weight-and_then :
    (first : Assembly × Option ServerSentEvent) (next : Assembly → Scanned)
    → weight (and_then first next) ≡ weight (next first.0)
weight-and_then (a, event) next = refl

-- Scanning drops characters and counts no more than it drops.
pub weight-scan :
    (a : Assembly) (line xs : Text)
    → weight (scan a line xs) ≤ a.line_chars + length line + length xs
weight-scan a line [] = unfold scan in omega arith
weight-scan a line (c ∷ []) = elim (Bool-cases (is_terminator c)) [
  | inl stop ↦ rw (scan_last a line c stop) (
      omega (
        arith,
        weight-and_then (consume line a) (λ b. ended b [] (nat_beq c carriage_return)),
        consume_chars line a,
      ))
  | inr go ↦ rw (scan_hold a line c go) (omega (arith, length-append line (c ∷ [])))
]
weight-scan a line (c ∷ d ∷ xs) = elim (Bool-cases (is_terminator c)) [
  | inl stop ↦ elim (Bool-cases (nat_beq c carriage_return && nat_beq d line_feed)) [
    | inl crlf ↦ rw (scan_crlf a line c d xs stop crlf) (
        omega (
          arith,
          weight-and_then (consume line a) (λ b. scan b [] xs),
          consume_chars line a,
          weight-scan (consume line a).0 [] xs,
        ))
    | inr one ↦ rw (scan_one a line c d xs stop one) (
        omega (
          arith,
          weight-and_then (consume line a) (λ b. scan b [] (d ∷ xs)),
          consume_chars line a,
          weight-scan (consume line a).0 [] (d ∷ xs),
        ))
  ]
  | inr go ↦
      rw (scan_go a line c d xs go)
        (omega (arith, length-append line (c ∷ []), weight-scan a (line ++ c ∷ []) (d ∷ xs)))
]

abbrev pub IsLine : Text → Type 0
IsLine s = All (λ c. is_terminator c ≡ false) s

pub scan-IsLine : (a : Assembly) (line xs : Text) → IsLine line → IsLine (scan a line xs).rest
scan-IsLine a line [] h = unfold scan in h
scan-IsLine a line (c ∷ []) h = elim (Bool-cases (is_terminator c)) [
  | inl stop ↦ rw (scan_last a line c stop) (
      subst IsLine
        (sym (and_then-rest (consume line a) (λ b. ended b [] (nat_beq c carriage_return)))) tt)
  | inr go ↦
      rw (scan_hold a line c go)
        (All-append (λ c. is_terminator c ≡ false) line (c ∷ []) h (go, tt))
]
scan-IsLine a line (c ∷ d ∷ xs) h = elim (Bool-cases (is_terminator c)) [
  | inl stop ↦ elim (Bool-cases (nat_beq c carriage_return && nat_beq d line_feed)) [
    | inl crlf ↦ rw (scan_crlf a line c d xs stop crlf) (
        subst IsLine (sym (and_then-rest (consume line a) (λ b. scan b [] xs)))
          (scan-IsLine (consume line a).0 [] xs tt))
    | inr one ↦ rw (scan_one a line c d xs stop one) (
        subst IsLine (sym (and_then-rest (consume line a) (λ b. scan b [] (d ∷ xs))))
          (scan-IsLine (consume line a).0 [] (d ∷ xs) tt))
  ]
  | inr go ↦ rw (scan_go a line c d xs go) (
      scan-IsLine a (line ++ c ∷ []) (d ∷ xs)
        (All-append (λ c. is_terminator c ≡ false) line (c ∷ []) h (go, tt)))
]

pub scan_line :
    (a : Assembly) (line xs : Text) → IsLine xs → scan a line xs ≡ ended a (line ++ xs) false
scan_line a line [] h = unfold scan in ap (λ l. ended a l false) (sym (append-nil line))
scan_line a line (c ∷ []) h = scan_hold a line c h.0
scan_line a line (c ∷ d ∷ xs) h =
    scan_go a line c d xs h.0
    ∙ scan_line a (line ++ c ∷ []) (d ∷ xs) h.1
    ∙ ap (λ l. ended a l false) (append_assoc line (c ∷ []) (d ∷ xs))
