-- ===== src/Agent/Call/Answers.antt =====
-- What proxy_call() answers.
use liberal_os.Agent.Proxy.Frames.{proxy_recv-response, response, NoNewline}
use liberal_os.CString.{strlen}
use liberal_os.Agent.Proxy.{request, newline, proxy_send}
use liberal_os.Syscall.Responses.{sys_cacheget, get_named}
use liberal_os.Agent.Call.{
  stored, proxy_unlocked, proxy_locked, fill, hit_note, wrote, received, ask_host, on_hit,
  proxy_call,
}
use liberal_os.Prelude.{
  ℕ, ◌-◌, ◌^◌, ◌≤◌, ◌<◌, ◌≡◌, refl, false, Option, none, some, List, [], ◌∷◌, ◌++◌, arith,
  if◌then◌else◌, ==-refl, ℤ, pos, negsuc, ◌≤ℤ◌, ltb_ℤ, length, take,
}
use liberal_os.Syscall.{UserMem}
use liberal_os.Cache.Api.{Cache}

-- When the cache misses and the host answers this process with a line of at most 511 bytes, the call
-- copies out the payload, cut to the caller's room, answers its length, stores it in the cache, and
-- holds the proxy lock exactly round the request and its answer.
pub proxy_call_answered :
    (fd : ℤ) (pid outmax : ℕ) (out role prompt payload rest : List ℕ)
    → pos 0 ≤ℤ fd
    → 0 < outmax
    → pid < 2 ^ 31
    → NoNewline payload
    → length (response pid payload) ≤ 511
    → let got = take (outmax - 1) payload in
      proxy_call fd pid (pos 0) out role prompt outmax (response pid payload ++ (newline ∷ rest))
      ≡ record {
        result = pos (length got);
        out = fill out got;
        events =
            proxy_locked
            ∷ wrote (request pid role prompt)
            ∷ proxy_unlocked
            ∷ stored (fill out got)
            ∷ [];
        input = rest;
      }
unfolding proxy_call ask_host received proxy_send
proxy_call_answered fd pid outmax out role prompt payload rest good room small clean fits =
    let opened : ltb_ℤ fd (pos 0) ≡ false = ground arith in
    rw
      (
        opened,
        proxy_recv-response fd pid pid outmax payload rest good room small clean fits,
        ==-refl pid,
      )
      refl

refused :
    (mem : UserMem) (c : Cache) (stack : List ℕ) (uout : ℕ) (outmax : ℤ) (u : mem.State)
    (role : Option (List ℕ))
    → (get_named mem c stack uout outmax u role none).0.0 ≡ negsuc 0
unfolding get_named
refused mem c stack uout outmax u none = refl
refused mem c stack uout outmax u (some role) = refl

-- A prompt that does not fit the kernel's 256 bytes makes cacheget() answer -1, which proxy_call()
-- takes for a hit: it answers the length of what stands in the caller's buffer, and asks nobody.
pub proxy_call_refused :
    (mem : UserMem) (c : Cache) (stack : List ℕ) (role_va prompt_va uout : ℕ) (uoutmax : ℤ)
    (u : mem.State) (fd : ℤ) (pid outmax : ℕ) (out role prompt input : List ℕ)
    → mem.copyinstr prompt_va 256 u ≡ none
    → let hit = (sys_cacheget mem c stack role_va prompt_va uout uoutmax u).0.0 in
      let reply = proxy_call fd pid hit out role prompt outmax input in
      (reply.result ≡ pos (strlen out))
      × (reply.input ≡ input)
      × (reply.events ≡ (if ltb_ℤ fd (pos 0) then [] else wrote (hit_note role) ∷ []))
unfolding proxy_call on_hit sys_cacheget
proxy_call_refused mem c stack role_va prompt_va uout uoutmax u fd pid outmax out role prompt input
      e =
    rw (e, refused mem c stack uout uoutmax u (mem.copyinstr role_va 16 u)) (refl, refl, refl)
