-- ===== src/Agent/Proxy/Requests.antt =====
-- The line of a request, and the bound of its buffer.
use liberal_os.Prelude.{
  ℕ, zero, suc, ◌+◌, ◌-◌, ◌/◌, ◌%◌, ◌≤◌, ◌<◌, ◌≡◌, refl, sym, ap, ◌∙◌, inl, inr, true, false, List,
  [], ◌∷◌, ◌++◌, arith, ltb, ◌==◌, Bool-cases, length, length-append,
}
use liberal_os.CString.Laws.{text}
use liberal_os.Agent.Proxy.{
  newline, tab, req_tag, append_int, backwards, append_str, decimal, digits, request,
}
use mathlib.Core.List.{append-nil, append_assoc}

-- _proxy_append_str() that does not run into its bound.
append_str_lem :
    (max : ℕ) (buf s : List ℕ)
    → length buf + length (text s) < max
    → append_str max buf s ≡ buf ++ text s
unfolding append_str text
append_str_lem max buf [] h = sym (append-nil buf)
append_str_lem max buf (c ∷ s) h = elim (Bool-cases (c == 0)) [
  | inl e ↦ rw e (sym (append-nil buf))
  | inr e ↦
      let more : length (text (c ∷ s)) ≡ suc (length (text s)) = rw e refl in
      let room : ltb (length buf) (max - 1) ≡ true = ground arith in
      rw (e, room)
        (append_str_lem max (buf ++ (c ∷ [])) s (omega (arith, length-append buf (c ∷ [])))
          ∙ append_assoc buf (c ∷ []) (text s))
]

length-digits : (n v : ℕ) → length (backwards (digits n v)) ≤ n
unfolding digits backwards
length-digits zero v = omega arith
length-digits (suc n) v = elim (Bool-cases (v == 0)) [
  | inl e ↦ rw e (omega arith)
  | inr e ↦ rw e (
      omega (
        arith,
        length-digits n (v / 10),
        length-append (backwards (digits n (v / 10))) ((48 + v % 10) ∷ []),
      ))
]

length-decimal : (v : ℕ) → length (decimal v) ≤ 12
unfolding decimal
length-decimal v = elim (Bool-cases (v == 0)) [
  | inl e ↦ rw e (omega arith)
  | inr e ↦ rw e (length-digits 12 v)
]

tag_written : append_str 640 [] req_tag ≡ req_tag
unfolding append_str
tag_written = refl

-- The frame of a request, before its newline.
abbrev pub frame : ℕ → List ℕ → List ℕ → List ℕ
frame pid role prompt = req_tag ++ (tab ∷ (decimal pid ++ (tab ∷ (role ++ (tab ∷ prompt)))))

flat :
    (d r p : List ℕ)
    → ((((d ++ (tab ∷ [])) ++ r) ++ (tab ∷ [])) ++ p) ++ (newline ∷ [])
      ≡ (d ++ (tab ∷ (r ++ (tab ∷ p)))) ++ (newline ∷ [])
flat d r p = simp append_assoc

request_eq :
    (pid : ℕ) (role prompt : List ℕ)
    → length (text role) + length (text prompt) ≤ 600
    → request pid role prompt ≡ frame pid (text role) (text prompt) ++ (newline ∷ [])
unfolding request append_int
request_eq pid role prompt h =
    let id = ((req_tag ++ (tab ∷ [])) ++ decimal pid) ++ (tab ∷ []) in
    let size : length id ≡ 11 + length (decimal pid) =
      omega (arith, length-append (decimal pid) (tab ∷ [])) in
    let small = length-decimal pid in
    let who : append_str 640 id role ≡ id ++ text role = append_str_lem 640 id role (omega arith) in
    let what : append_str 640 ((id ++ text role) ++ (tab ∷ [])) prompt
        ≡ ((id ++ text role) ++ (tab ∷ [])) ++ text prompt =
      append_str_lem 640 ((id ++ text role) ++ (tab ∷ [])) prompt
        (omega (arith, length-append id (text role), length-append (id ++ text role) (tab ∷ []))) in
    rw (tag_written, who, what)
      (ap (λ l. req_tag ++ (tab ∷ l)) (flat (decimal pid) (text role) (text prompt)))

size_frame :
    (pid : ℕ) (role prompt : List ℕ)
    → length (frame pid role prompt) ≡ 12 + length (decimal pid) + length role + length prompt
size_frame pid role prompt = omega (
  arith,
  length-append (decimal pid) (tab ∷ (role ++ (tab ∷ prompt))),
  length-append role (tab ∷ prompt),
)

-- A role and a prompt of at most 600 bytes together go out whole, in one frame with the pid, and the
-- line fits the 640 bytes of its buffer.
pub request_lem :
    (pid : ℕ) (role prompt : List ℕ)
    → length (text role) + length (text prompt) ≤ 600
    → (request pid role prompt ≡ frame pid (text role) (text prompt) ++ (newline ∷ []))
      × (length (request pid role prompt) ≤ 640)
request_lem pid role prompt h = (
  request_eq pid role prompt h,
  rw (request_eq pid role prompt h) (
      omega (
        arith,
        length-append (frame pid (text role) (text prompt)) (newline ∷ []),
        size_frame pid (text role) (text prompt),
        length-decimal pid,
      )),
)

-- _proxy_append_str() that runs into its bound.
length-append_str :
    (max : ℕ) (buf s : List ℕ)
    → length buf < max
    → max ≤ length buf + length (text s) + 1
    → length (append_str max buf s) ≡ max - 1
unfolding append_str text
length-append_str max buf [] h k = omega arith
length-append_str max buf (c ∷ s) h k = elim (Bool-cases (c == 0)) [
  | inl e ↦ let none_left : length (text (c ∷ s)) ≡ 0 = rw e refl in rw e (omega arith)
  | inr e ↦
      let more : length (text (c ∷ s)) ≡ suc (length (text s)) = rw e refl in
      elim (Bool-cases (ltb (length buf) (max - 1))) [
        | inl room ↦
            rw (e, room)
              (length-append_str max (buf ++ (c ∷ [])) s
                (ground (arith, length-append buf (c ∷ [])))
                (omega (arith, length-append buf (c ∷ []))))
        | inr full ↦ rw (e, full) (ground arith)
      ]
]

append_str_full : (max : ℕ) (buf s : List ℕ) → max ≤ length buf + 1 → append_str max buf s ≡ buf
unfolding append_str
append_str_full max buf [] h = refl
append_str_full max buf (c ∷ s) h = elim (Bool-cases (c == 0)) [
  | inl e ↦ rw e refl
  | inr e ↦ let full : ltb (length buf) (max - 1) ≡ false = ground arith in rw (e, full) refl
]

-- A role of 640 bytes or more makes proxy_send() write 641 bytes to its buffer of 640.
pub request_overflow :
    (pid : ℕ) (role prompt : List ℕ)
    → 640 ≤ length (text role)
    → length (request pid role prompt) ≡ 641
unfolding request append_int
request_overflow pid role prompt h =
    let id = ((req_tag ++ (tab ∷ [])) ++ decimal pid) ++ (tab ∷ []) in
    let size : length id ≡ 11 + length (decimal pid) =
      omega (arith, length-append (decimal pid) (tab ∷ [])) in
    let who = append_str 640 id role in
    let cut : length who ≡ 639 =
      length-append_str 640 id role (omega (arith, length-decimal pid)) (omega arith) in
    let stuck : append_str 640 (who ++ (tab ∷ [])) prompt ≡ who ++ (tab ∷ []) =
      append_str_full 640 (who ++ (tab ∷ [])) prompt
        (omega (arith, length-append who (tab ∷ []))) in
    rw (tag_written, stuck)
      (omega
        (arith, length-append (who ++ (tab ∷ [])) (newline ∷ []), length-append who (tab ∷ [])))
