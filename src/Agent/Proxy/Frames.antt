-- ===== src/Agent/Proxy/Frames.antt =====
-- Frames: the lines of the host, and those of the agents, on one console.
use liberal_os.Prelude.{
  ℕ, zero, suc, ◌+◌, ◌-◌, ◌^◌, ◌≤◌, ◌<◌, ◌≡◌, refl, Bool, true, false, Option, none, some, List, [],
  ◌∷◌, ◌++◌, arith, ltb, ◌==◌, if◌then◌else◌, ℤ, pos, ◌≤ℤ◌, ltb_ℤ, length, get_or, take, drop,
  length-append,
}
use mathlib.Core.List.{append-nil, append_assoc}
use liberal_os.Agent.Proxy.Decimal.{AllDigits, decimal-AllDigits, parse_int-decimal}
use liberal_os.Agent.Proxy.{
  proxy_recv, parse_int, payload_of, tab, accept, decimal, newline, recv, res_tag, starts_with,
}

abbrev pub tag_tab : List ℕ
tag_tab = res_tag ++ (tab ∷ [])

-- The line, without its newline, that answers the process `id`.
abbrev pub response : ℕ → List ℕ → List ℕ
response id payload = tag_tab ++ (decimal id ++ (tab ∷ payload))

abbrev pub NoNewline : List ℕ → Type 0
NoNewline [] = true ≡ true
NoNewline (c ∷ cs) = ((c == newline) ≡ false) × NoNewline cs

get_or-append :
    (xs : List ℕ) (c : ℕ) (ys : List ℕ) (n : ℕ) → n ≡ length xs → get_or (xs ++ (c ∷ ys)) n 0 ≡ c
get_or-append [] c ys zero h = refl
get_or-append [] c ys (suc n) h = absurd (omega arith)
get_or-append (x ∷ xs) c ys zero h = absurd (omega arith)
get_or-append (x ∷ xs) c ys (suc n) h = get_or-append xs c ys n (omega arith)

drop-append :
    (xs : List ℕ) (c : ℕ) (ys : List ℕ) (n : ℕ) → n ≡ suc (length xs) → drop n (xs ++ (c ∷ ys)) ≡ ys
drop-append xs c ys zero h = absurd (omega arith)
drop-append [] c ys (suc zero) h = refl
drop-append [] c ys (suc (suc n)) h = absurd (omega arith)
drop-append (x ∷ xs) c ys (suc n) h = drop-append xs c ys n (omega arith)

recv_line :
    (our_id outmax : ℕ) (line xs rest : List ℕ)
    → NoNewline xs
    → length line + length xs ≤ 511
    → recv our_id outmax line (xs ++ (newline ∷ rest))
      ≡ recv our_id outmax (line ++ xs) (newline ∷ rest)
unfolding recv
recv_line our_id outmax line [] rest n h = rw (append-nil line) refl
recv_line our_id outmax line (x ∷ xs) rest n h =
    let room : ltb (length line) 511 ≡ true = ground arith in
    rw (n.0, room, ← append_assoc line (x ∷ []) xs)
      (recv_line our_id outmax (line ++ (x ∷ [])) xs rest n.1
        (omega (arith, length-append line (x ∷ []))))

size_response :
    (id : ℕ) (payload : List ℕ)
    → length (response id payload) ≡ 11 + length (decimal id) + length payload
size_response id payload = omega (arith, length-append (decimal id) (tab ∷ payload))

accept-response :
    (our_id id : ℕ) (payload : List ℕ)
    → id < 2 ^ 31
    → accept our_id (response id payload) ≡ (if id == our_id then some payload else none)
unfolding accept payload_of starts_with
accept-response our_id id payload h =
    let size = size_response id payload in
    let long : ltb (9 + 1) (length (response id payload)) ≡ true = ground (arith, size) in
    let read : parse_int (decimal id ++ (tab ∷ payload)) (length (response id payload) - 9 - 1)
        ≡ some (id, length (decimal id)) =
      parse_int-decimal id tab payload (length (response id payload) - 9 - 1) h refl
        (omega (arith, size)) in
    let ends : get_or (response id payload) (9 + 1 + length (decimal id)) 0 ≡ tab =
      get_or-append (tag_tab ++ decimal id) tab payload (9 + 1 + length (decimal id))
        (omega arith) in
    let body : drop (9 + 1 + length (decimal id) + 1) (response id payload) ≡ payload =
      drop-append (tag_tab ++ decimal id) tab payload (9 + 1 + length (decimal id) + 1)
        (omega arith) in
    rw (long, read, ends, body) refl

NoNewline-append : (xs ys : List ℕ) → NoNewline xs → NoNewline ys → NoNewline (xs ++ ys)
NoNewline-append [] ys h k = k
NoNewline-append (x ∷ xs) ys h k = (h.0, NoNewline-append xs ys h.1 k)

NoNewline-of_digits : (xs : List ℕ) → AllDigits xs → NoNewline xs
NoNewline-of_digits [] h = refl
NoNewline-of_digits (x ∷ xs) h = (ground (arith, h.0), NoNewline-of_digits xs h.1)

NoNewline-response :
    (id : ℕ) (payload : List ℕ) → NoNewline payload → NoNewline (response id payload)
NoNewline-response id payload h =
    NoNewline-append (tag_tab ++ decimal id) (tab ∷ payload)
      (
        refl,
        (
          refl,
          (
            refl,
            (
              refl,
              (
                refl,
                (
                  refl,
                  (
                    refl,
                    (refl, (refl, (refl, NoNewline-of_digits (decimal id) (decimal-AllDigits id)))),
                  ),
                ),
              ),
            ),
          ),
        ),
      )
      (refl, h)

chosen :
    (ours : Bool) (payload rest : List ℕ) (outmax : ℕ) (next : Option (List ℕ × List ℕ))
    → (elim (if ours then some payload else none) [
      | some p ↦ some (take (outmax - 1) p, rest)
      | none ↦ next
    ])
      ≡ (if ours then some (take (outmax - 1) payload, rest) else next)
chosen true payload rest outmax next = refl
chosen false payload rest outmax next = refl

-- proxy_recv() of valid arguments that meets a whole line of the host, of at most 511 bytes: when
-- the line answers this process the payload is copied out, cut to the caller's room, and the input
-- is left after the line; a line that answers another process is skipped.
pub proxy_recv-response :
    (fd : ℤ) (our_id id outmax : ℕ) (payload rest : List ℕ)
    → pos 0 ≤ℤ fd
    → 0 < outmax
    → id < 2 ^ 31
    → NoNewline payload
    → length (response id payload) ≤ 511
    → proxy_recv fd our_id false outmax (response id payload ++ (newline ∷ rest)) ≡ (
        if id == our_id
        then some (take (outmax - 1) payload, rest)
        else proxy_recv fd our_id false outmax rest)
unfolding proxy_recv recv
proxy_recv-response fd our_id id outmax payload rest h room small clean fits =
    let good : ltb_ℤ fd (pos 0) ≡ false = ground arith in
    let wide : (outmax == 0) ≡ false = ground arith in
    let line =
      recv_line our_id outmax [] (response id payload) rest (NoNewline-response id payload clean)
        (omega (arith, fits)) in
    rw (good, wide, line, accept-response our_id id payload small)
      (chosen (id == our_id) payload rest outmax (recv our_id outmax [] rest))
