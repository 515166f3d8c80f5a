-- ===== src/Middleware/Tagging.antt =====
-- The ids that requests get, and the responses that carry them.
use civic_pulse_24i3089_24i.Prelude.{
  ℕ, ◌≡◌, refl, ap, inl, inr, Bool, true, false, Option, List, [], ◌∷◌, ◌++◌, arith, any, ◌==◌,
  Bool-cases,
}
use civic_pulse_24i3089_24i.Text.{Str}
use civic_pulse_24i3089_24i.Middleware.{
  fits, drop_newline, matches, id_header, header_value, request_id, Message, response_start,
  other_message, send_all, observe,
}

abbrev pub has_newline : Str → Bool
has_newline s = any (λ c. c == 10) s

drop_newline_self : (s : Str) → has_newline s ≡ false → drop_newline s ≡ s
unfolding drop_newline
drop_newline_self [] h = refl
drop_newline_self (c ∷ []) h = ground arith
drop_newline_self (c ∷ d ∷ s) h = ap (◌∷◌ c) (drop_newline_self (d ∷ s) (ground arith))

matches-fits : (s : Str) → has_newline s ≡ false → matches s ≡ fits s
unfolding matches
matches-fits s h = rw (drop_newline_self s h) (ground arith)

-- The messages are those of the application, and each start of a response ends its headers with
-- the id.
abbrev pub IsTagged : Str → List Message → List Message → Type 0
IsTagged id [] [] = Unit
IsTagged id (other_message ∷ ms) (other_message ∷ ns) = IsTagged id ms ns
IsTagged id (response_start code headers ∷ ms) (response_start code' headers' ∷ ns) =
    (code' ≡ code) × (headers' ≡ headers ++ (id_header, id) ∷ []) × IsTagged id ms ns
IsTagged id _ _ = ⊥

send_all-IsTagged :
    (id : Str) (ms : List Message) (status : ℕ) → IsTagged id ms (send_all id ms status).0
unfolding send_all
send_all-IsTagged id [] status = tt
send_all-IsTagged id (other_message ∷ ms) status = send_all-IsTagged id ms status
send_all-IsTagged id (response_start code headers ∷ ms) status =
    (refl, refl, send_all-IsTagged id ms code)

request_id-fits :
    (new_id : Str) (headers : List (Str × Str))
    → fits new_id ≡ true
    → has_newline (header_value id_header headers []) ≡ false
    → fits (request_id new_id headers) ≡ true
unfolding request_id
request_id-fits new_id headers new flat =
    let e = matches-fits (header_value id_header headers []) flat in
    elim (Bool-cases (fits (header_value id_header headers []))) [
      | inl safe ↦ rw (e, safe) safe
      | inr unsafe ↦ rw (e, unsafe) new
    ]

-- Where the new id is safe and the header that came in has no line break, the request's id is 1 to
-- 64 safe characters, whatever the client sent, and each response that the application starts goes
-- out with that id as its last header and with its status unchanged.
pub observe-IsTagged :
    (new_id : Str) (headers : List (Str × Str)) (route : Option Str) (messages : List Message)
    → fits new_id ≡ true
    → has_newline (header_value id_header headers []) ≡ false
    → let o = observe new_id headers route messages in
      (fits o.request_id ≡ true) × IsTagged o.request_id messages o.sent
unfolding observe
observe-IsTagged new_id headers route messages new flat = (
  request_id-fits new_id headers new flat,
  send_all-IsTagged (request_id new_id headers) messages 500,
)
