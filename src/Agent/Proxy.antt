-- ===== src/Agent/Proxy.antt =====
-- user/proxy_client.h: the lines that an agent and the host exchange over the console. A buffer is
-- the list of the bytes written to it so far, its position the length. What read() delivers is a
-- list of bytes that ends with the end of the file. An int that is parsed does not overflow here,
-- where C leaves it open.
pub mod Decimal
pub mod Frames
pub mod Requests
use liberal_os.Prelude.{
  ℕ, zero, suc, ◌+◌, ◌-◌, ◌*◌, ◌/◌, ◌%◌, ◌^◌, ◌≤◌, ◌<◌, min, ◌≡◌, refl, sym, ap, ap₂, ◌∙◌, subst,
  ◌≢◌, ◌↔◌, ◌⊎◌, inl, inr, Bool, true, false, not, ◌&&◌, ◌||◌, Option, none, some, List, [], ◌∷◌,
  ◌++◌, arith, ltb, leb, ◌==◌, if◌then◌else◌, ==_iff, ==-refl, ==-false, Bool-cases, Option-cases,
  ℤ, pos, negsuc, sub_ℕ, ◌≤ℤ◌, ◌<ℤ◌, ltb_ℤ, leb_ℤ, eqb_ℤ, eqb_ℤ_iff, length, get_elem?, get_or, set,
  take, drop, replicate, length-append, length-set, length-take, length-replicate,
  get_elem?-set_self, get_elem?-set_ne, get_or-set_self, get_or-set_ne, take-length, lt_of_le_ne,
}
use liberal_os.Verifier.{codes}

abbrev pub tab : ℕ
tab = 9

abbrev pub newline : ℕ
newline = 10

-- PROXY_REQ_TAG and PROXY_RES_TAG
abbrev pub req_tag : List ℕ
req_tag = codes "PROXY_REQ"

abbrev pub res_tag : List ℕ
res_tag = codes "PROXY_RES"

-- while(s && *s && *pos < max - 1) buf[(*pos)++] = *s++;
unfoldable pub append_str : ℕ → List ℕ → List ℕ → List ℕ
append_str max buf [] = buf
append_str max buf (c ∷ s) =
    let rest = append_str max (buf ++ (c ∷ [])) s in
    if c == 0 then buf else if ltb (length buf) (max - 1) then rest else buf

-- The digits of v > 0, the last one first, at most n of them.
unfoldable pub digits : ℕ → ℕ → List ℕ
digits zero v = []
digits (suc n) v = let rest = digits n (v / 10) in if v == 0 then [] else (48 + v % 10) ∷ rest

-- while(n--) buf[(*pos)++] = tmp[n];
unfoldable pub backwards : List ℕ → List ℕ
backwards [] = []
backwards (d ∷ ds) = backwards ds ++ (d ∷ [])

unfoldable pub decimal : ℕ → List ℕ
decimal v = if v == 0 then 48 ∷ [] else backwards (digits 12 v)

unfoldable pub append_int : List ℕ → ℤ → List ℕ
append_int buf (pos v) = buf ++ decimal v
append_int buf (negsuc v) = (buf ++ (45 ∷ [])) ++ decimal (suc v)

-- The line that proxy_send() writes, for a process `pid`.
unfoldable pub request : ℕ → List ℕ → List ℕ → List ℕ
request pid role prompt =
    let tag = append_str 640 [] req_tag ++ (tab ∷ []) in
    let id = append_int tag (pos pid) ++ (tab ∷ []) in
    let who = append_str 640 id role ++ (tab ∷ []) in append_str 640 who prompt ++ (newline ∷ [])

-- What is written to the console, or none for -1. A null pointer is none.
unfoldable pub proxy_send : ℤ → ℕ → Option (List ℕ) → Option (List ℕ) → Option (List ℕ)
proxy_send fd pid none prompt = none
proxy_send fd pid (some role) none = none
proxy_send fd pid (some role) (some prompt) =
    if ltb_ℤ fd (pos 0) then none else some (request pid role prompt)

abbrev pub is_digit : ℕ → Bool
is_digit c = leb 48 c && leb c 57

-- The loop of _proxy_parse_int(): the value and the number of bytes, from v and i on. The value is
-- that of the digits; C leaves a value above INT_MAX undefined.
unfoldable pub parse_loop : List ℕ → ℕ → ℕ → ℕ → ℕ × ℕ
parse_loop s zero v i = (v, i)
parse_loop [] (suc max) v i = (v, i)
parse_loop (c ∷ s) (suc max) v i =
    let rest = parse_loop s max (v * 10 + (c - 48)) (i + 1) in if is_digit c then rest else (v, i)

unfoldable pub parse_int : List ℕ → ℕ → Option (ℕ × ℕ)
parse_int s max = let r = parse_loop s max 0 0 in if r.1 == 0 then none else some r

-- memcmp(line, tag, taglen) == 0
unfoldable pub starts_with : List ℕ → List ℕ → Bool
starts_with line [] = true
starts_with [] (t ∷ ts) = false
starts_with (c ∷ line) (t ∷ ts) = let rest = starts_with line ts in if c == t then rest else false

-- The payload, when the id that was parsed ends at a tab and is ours.
unfoldable pub payload_of : ℕ → List ℕ → Option (ℕ × ℕ) → Option (List ℕ)
payload_of our_id line none = none
payload_of our_id line (some (id, idlen)) =
    if get_or line (9 + 1 + idlen) 0 == tab && id == our_id
    then some (drop (9 + 1 + idlen + 1) line)
    else none

-- The payload of a whole line that answers us.
unfoldable pub accept : ℕ → List ℕ → Option (List ℕ)
accept our_id line =
    if ltb (9 + 1) (length line) && starts_with line res_tag && get_or line 9 0 == tab
    then payload_of our_id line (parse_int (drop (9 + 1) line) (length line - 9 - 1))
    else none

-- The loop of proxy_recv() with `line` read: the bytes copied out and the input left, or none for
-- the end of the file.
unfoldable pub recv : ℕ → ℕ → List ℕ → List ℕ → Option (List ℕ × List ℕ)
recv our_id outmax line [] = none
recv our_id outmax line (c ∷ cs) =
    let more = recv our_id outmax (if ltb (length line) 511 then line ++ (c ∷ []) else line) cs in
    let next = recv our_id outmax [] cs in
    if not (c == newline)
    then more
    else elim (accept our_id line) [ some p ↦ some (take (outmax - 1) p, cs) | none ↦ next ]

unfoldable pub proxy_recv : ℤ → ℕ → Bool → ℕ → List ℕ → Option (List ℕ × List ℕ)
proxy_recv fd our_id null outmax input =
    if ltb_ℤ fd (pos 0) || null || outmax == 0 then none else recv our_id outmax [] input

-- The loop of proxy_readline() with n bytes read: the line, its length its result, and the input
-- left.
unfoldable pub readline : ℕ → List ℕ → List ℕ → List ℕ × List ℕ
readline max line [] = (line, [])
readline max line (c ∷ cs) =
    let rest = readline max (if ltb (length line) (max - 1) then line ++ (c ∷ []) else line) cs in
    if c == newline then (line, cs) else rest
