-- ===== src/EventStream/Scan.antt =====
-- Scanning a text in two parts is scanning it at once.
use jmaplib.Prelude.{
  ℕ, Text, Bool, true, false, ◌&&◌, [], ◌∷◌, ◌++◌, Option, ◌≡◌, refl, ap, sym, ◌∙◌, arith, nat_beq,
  append_assoc, Bool-cases, inl, inr, remove_prefix,
}
use mathlib.Core.Path.{fun_ext}
use jmaplib.EventStream.{
  Assembly, Scanned, ServerSentEvent, ended, and_then, event_list, scan, strip, is_terminator,
  carriage_return, line_feed, consume,
}

-- Go on from what the scan of a first part has left.
abbrev pub resume : Scanned → Text → Scanned
resume r more =
    let later = scan r.assembly r.rest (strip r.pending more) in
    record later { events = r.events ++ later.events }

resume-and_then :
    (line : Assembly × Option ServerSentEvent) (next : Assembly → Scanned) (more : Text)
    → resume (and_then line next) more ≡ and_then line (λ b. resume (next b) more)
resume-and_then (a, event) next more =
    ap
      (λ l. record (scan (next a).assembly (next a).rest (strip (next a).pending more)) {
        events = l;
      })
      (append_assoc (event_list event) (next a).events
        (scan (next a).assembly (next a).rest (strip (next a).pending more)).events)

-- The loop at a terminator: the last character, a CRLF, or any other.
pub scan_last :
    (a : Assembly) (line : Text) (c : ℕ)
    → is_terminator c ≡ true
    → scan a line (c ∷ []) ≡ and_then (consume line a) (λ b. ended b [] (nat_beq c carriage_return))
unfolding scan
scan_last a line c stop = ground arith

pub scan_crlf :
    (a : Assembly) (line : Text) (c d : ℕ) (s : Text)
    → is_terminator c ≡ true
    → (nat_beq c carriage_return && nat_beq d line_feed) ≡ true
    → scan a line (c ∷ d ∷ s) ≡ and_then (consume line a) (λ b. scan b [] s)
unfolding scan
scan_crlf a line c d s stop crlf = ground arith

pub scan_one :
    (a : Assembly) (line : Text) (c d : ℕ) (s : Text)
    → is_terminator c ≡ true
    → (nat_beq c carriage_return && nat_beq d line_feed) ≡ false
    → scan a line (c ∷ d ∷ s) ≡ and_then (consume line a) (λ b. scan b [] (d ∷ s))
unfolding scan
scan_one a line c d s stop one = ground arith

pub scan_go :
    (a : Assembly) (line : Text) (c d : ℕ) (s : Text)
    → is_terminator c ≡ false
    → scan a line (c ∷ d ∷ s) ≡ scan a (line ++ c ∷ []) (d ∷ s)
unfolding scan
scan_go a line c d s go = ground arith

pub scan_hold :
    (a : Assembly) (line : Text) (c : ℕ)
    → is_terminator c ≡ false
    → scan a line (c ∷ []) ≡ ended a (line ++ c ∷ []) false
unfolding scan
scan_hold a line c go = ground arith

-- The two parts meet at a held-over CR, or not.
strip_crlf :
    (c d : ℕ) (s : Text)
    → (nat_beq c carriage_return && nat_beq d line_feed) ≡ true
    → strip (nat_beq c carriage_return) (d ∷ s) ≡ s
unfolding remove_prefix
strip_crlf c d s h = ground arith

strip_one :
    (c d : ℕ) (s : Text)
    → (nat_beq c carriage_return && nat_beq d line_feed) ≡ false
    → strip (nat_beq c carriage_return) (d ∷ s) ≡ d ∷ s
unfolding remove_prefix
strip_one c d s h = ground arith

-- What `resume` adds after a scan that ended at once.
resume-ended :
    (a : Assembly) (line : Text) (pending : Bool) (more : Text)
    → resume (ended a line pending) more ≡ scan a line (strip pending more)
resume-ended a line pending more = refl

scan_held : (a : Assembly) (line more : Text) → scan a line more ≡ resume (scan a line []) more
unfolding scan
scan_held a line more = refl

-- One part first, of which the rest is resumed.
pub scan-append :
    (a : Assembly) (line xs : Text) (d : ℕ) (ys : Text)
    → scan a line (xs ++ d ∷ ys) ≡ resume (scan a line xs) (d ∷ ys)
scan-append a line [] d ys = scan_held a line (d ∷ ys)
scan-append a line (c ∷ []) d ys = elim (Bool-cases (is_terminator c)) [
  | inl stop ↦ elim (Bool-cases (nat_beq c carriage_return && nat_beq d line_feed)) [
    | inl crlf ↦
        scan_crlf a line c d ys stop crlf
        ∙ ap (and_then (consume line a))
            (fun_ext (λ b. ap (scan b []) (sym (strip_crlf c d ys crlf))))
        ∙ sym (
            resume-and_then (consume line a) (λ b. ended b [] (nat_beq c carriage_return)) (d ∷ ys))
        ∙ ap (λ r. resume r (d ∷ ys)) (sym (scan_last a line c stop))
    | inr one ↦
        scan_one a line c d ys stop one
        ∙ ap (and_then (consume line a))
            (fun_ext (λ b. ap (scan b []) (sym (strip_one c d ys one))))
        ∙ sym (
            resume-and_then (consume line a) (λ b. ended b [] (nat_beq c carriage_return)) (d ∷ ys))
        ∙ ap (λ r. resume r (d ∷ ys)) (sym (scan_last a line c stop))
  ]
  | inr go ↦ scan_go a line c d ys go ∙ ap (λ r. resume r (d ∷ ys)) (sym (scan_hold a line c go))
]
scan-append a line (c ∷ e ∷ xs) d ys = elim (Bool-cases (is_terminator c)) [
  | inl stop ↦ elim (Bool-cases (nat_beq c carriage_return && nat_beq e line_feed)) [
    | inl crlf ↦
        scan_crlf a line c e (xs ++ d ∷ ys) stop crlf
        ∙ ap (and_then (consume line a)) (fun_ext (λ b. scan-append b [] xs d ys))
        ∙ sym (resume-and_then (consume line a) (λ b. scan b [] xs) (d ∷ ys))
        ∙ ap (λ r. resume r (d ∷ ys)) (sym (scan_crlf a line c e xs stop crlf))
    | inr one ↦
        scan_one a line c e (xs ++ d ∷ ys) stop one
        ∙ ap (and_then (consume line a)) (fun_ext (λ b. scan-append b [] (e ∷ xs) d ys))
        ∙ sym (resume-and_then (consume line a) (λ b. scan b [] (e ∷ xs)) (d ∷ ys))
        ∙ ap (λ r. resume r (d ∷ ys)) (sym (scan_one a line c e xs stop one))
  ]
  | inr go ↦
      scan_go a line c e (xs ++ d ∷ ys) go
      ∙ scan-append a (line ++ c ∷ []) (e ∷ xs) d ys
      ∙ ap (λ r. resume r (d ∷ ys)) (sym (scan_go a line c e xs go))
]
