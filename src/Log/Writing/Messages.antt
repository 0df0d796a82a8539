-- ===== src/Log/Writing/Messages.antt =====
-- What LogFile::message writes, and what it does to the lock.
use Prim.Native.String.{String}
use magicserver.Prelude.{
  ℕ, ◌+◌, ◌<◌, ◌≡◌, ◌≢◌, refl, ◌⊎◌, inl, inr, none, some, List, [], ◌∷◌, arith, ℤ, pos, ltb_ℤ,
  get_elem?, get_elem?-some, get_elem?-lt, neg_part, pos_part, ok, Returns, returns, Option-cases,
}
use magicserver.Errors.{MsrvResult, success, log_write_failed}
use magicserver.Lock.{lock, unlock-lock}
use magicserver.Log.{LogFile, Stream}
use magicserver.Log.Writing.{
  Tm, Part, stamp, header, body, newline, Printed, Event, fatalities, refused, error_number,
  print_parts, print_event, message,
}

-- A fatality that the tests let pass has a name.
named_fatality :
    (e : Event) (l : LogFile)
    → refused e l ≡ none
    → (name : String) × (get_elem? fatalities (pos_part e.fatality) ≡ some name)
unfolding refused ltb_ℤ
named_fatality e l h = get_elem?-some fatalities (pos_part e.fatality) (ground arith)

-- What holds after message: the log's stream and name are as they were, and the lock is as it was on
-- success, and held once more on an error.
abbrev pub Balanced : LogFile → MsrvResult × LogFile × List Part → Type 0
Balanced l (r, l', parts) =
    (l'.stream ≡ l.stream)
    × (l'.filename ≡ l.filename)
    × (((r ≡ success) × (l'.thread_lock ≡ l.thread_lock))
        ⊎ ((r ≢ success) × (l'.thread_lock ≡ lock l.thread_lock)))

print_parts_result :
    (modulename name : String) (n : ℕ) (text : String) (tm : Tm) (p : Printed)
    → ((print_parts modulename name n text tm p).0 ≡ success)
      ⊎ ((print_parts modulename name n text tm p).0 ≡ log_write_failed)
unfolding print_parts
print_parts_result modulename name n text tm p = ground arith

print_event-Balanced :
    (e : Event) (text name : String) (tm : Tm) (p : Printed) (l : LogFile)
    → get_elem? fatalities (pos_part e.fatality) ≡ some name
    → Returns (Balanced l) (print_event e text tm p l)
unfolding print_event
print_event-Balanced e text name tm p l h = rw h (
    returns (
      refl,
      refl,
      ground (
        arith,
        unlock-lock l.thread_lock,
        print_parts_result e.modulename name (error_number e.errno) text tm p,
      ),
    ))

refused_error : (e : Event) (l : LogFile) (r : MsrvResult) → refused e l ≡ some r → r ≢ success
unfolding refused
refused_error e l r h = ground arith

allowed-Balanced :
    (e : Event) (tm : Tm) (p : Printed) (l : LogFile)
    → refused e l ≡ none
    → Returns (Balanced l) (message e tm p l)
unfolding message
allowed-Balanced e tm p l h =
    let (name, named) = named_fatality e l h in
    elim (Option-cases e.text) [
      | inl none_text ↦ rw (h, message) (rw none_text (returns (refl, refl, inr (λ q. cc, refl))))
      | inr (text, some_text) ↦
          rw (h, message) (rw some_text (print_event-Balanced e text name tm p l named))
    ]

-- message always returns. It leaves the stream and the file name as they were; it releases the lock
-- if it succeeds, and leaves it held on every error.
pub message_balance :
    (e : Event) (tm : Tm) (p : Printed) (l : LogFile) → Returns (Balanced l) (message e tm p l)
unfolding message
message_balance e tm p l = elim (Option-cases (refused e l)) [
  | inl h ↦ allowed-Balanced e tm p l h
  | inr (r, h) ↦ rw (h, message) (returns (refl, refl, inr (refused_error e l r h, refl)))
]

error_number_lem : (n : ℤ) → error_number n ≡ pos_part n + neg_part n
unfolding error_number ltb_ℤ
error_number_lem n = ground arith

-- All four calls of fprintf succeed.
abbrev pub AllPrinted : Printed → Type 0
AllPrinted p =
    (0 < pos_part p.stamp_result)
    × (0 < pos_part p.header_result)
    × (neg_part p.body_result ≡ 0)
    × (0 < pos_part p.newline_result)

abbrev pub event : String → ℕ → ℤ → String → Event
event modulename fatality errno text = record {
  modulename = modulename;
  fatality = pos fatality;
  errno = errno;
  text = some text;
}

-- A line of the log.
abbrev pub line : Tm → String → String → ℤ → String → List Part
line tm modulename name errno text =
    stamp (1900 + tm.year) tm.mon tm.mday tm.hour tm.min tm.sec
    ∷ header modulename name (pos_part errno + neg_part errno)
    ∷ body text
    ∷ newline
    ∷ []

print_parts-line :
    (modulename name : String) (errno : ℤ) (text : String) (tm : Tm) (p : Printed)
    → AllPrinted p
    → print_parts modulename name (error_number errno) text tm p
      ≡ (success, line tm modulename name errno text)
unfolding print_parts ltb_ℤ
print_parts-line modulename name errno text tm p (a, b, c, d) =
    rw (error_number_lem errno) (ground arith)

refused-none :
    (e : Event) (l : LogFile) (s : Stream) (text : String)
    → l.stream ≡ some s
    → e.text ≡ some text
    → (neg_part e.fatality ≡ 0) × (pos_part e.fatality < 8)
    → refused e l ≡ none
unfolding refused ltb_ℤ
refused-none e l s text hs ht (a, b) = rw (hs, refused) (rw ht (ground arith))

-- With an open stream, a message, a fatality in range and calls of fprintf that all succeed, message
-- succeeds, leaves the log as it was and writes the time, which the documentation of the class does not
-- have in the line, then the header with the name of the fatality and the error number without its
-- sign, the message, and the end of the line. The month that it writes counts from zero.
pub message-line :
    (s : Stream) (modulename text name : String) (fatality : ℕ) (errno : ℤ) (tm : Tm) (p : Printed)
    (l : LogFile)
    → l.stream ≡ some s
    → get_elem? fatalities fatality ≡ some name
    → AllPrinted p
    → message (event modulename fatality errno text) tm p l
      ≡ ok (success, l, line tm modulename name errno text)
unfolding message print_event
message-line s modulename text name fatality errno tm p l hs hn printed =
    rw (allowed, message)
      (rw (hn, print_parts-line modulename name errno text tm p printed, unlock-lock l.thread_lock)
        refl)
  where
    allowed : refused (event modulename fatality errno text) l ≡ none
    allowed =
        refused-none (event modulename fatality errno text) l s text hs refl
          (refl, get_elem?-lt fatalities fatality name hn)
