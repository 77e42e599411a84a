-- ===== src/Agent/Call.antt =====
-- proxy_call() of user/proxy_client.h: the kernel's cache first, then the host, under the proxy lock.
-- What cacheget() answers, and the buffer after it, are arguments.
pub mod Answers
use liberal_os.Prelude.{
  ℕ, zero, suc, ◌+◌, ◌-◌, ◌*◌, ◌/◌, ◌%◌, ◌^◌, ◌≤◌, ◌<◌, min, ◌≡◌, refl, sym, ap, ap₂, ◌∙◌, subst,
  ◌≢◌, ◌↔◌, ◌⊎◌, inl, inr, Bool, true, false, not, ◌&&◌, ◌||◌, Option, none, some, List, [], ◌∷◌,
  ◌++◌, arith, ltb, leb, ◌==◌, if◌then◌else◌, ==_iff, ==-refl, ==-false, Bool-cases, Option-cases,
  ℤ, pos, negsuc, sub_ℕ, ◌≤ℤ◌, ◌<ℤ◌, ltb_ℤ, leb_ℤ, eqb_ℤ, eqb_ℤ_iff, length, get_elem?, get_or, set,
  take, drop, replicate, length-append, length-set, length-take, length-replicate,
  get_elem?-set_self, get_elem?-set_ne, get_or-set_self, get_or-set_ne, take-length, lt_of_le_ne,
}
use liberal_os.Verifier.{codes}
use liberal_os.Syscall.{overwrite}
use liberal_os.CString.{strlen}
use liberal_os.Agent.Proxy.{newline, tab, append_str, proxy_recv, proxy_send}

-- What the call does outside the process, in its order.
pub data Event : Type 0 where
  wrote : List ℕ → Event
  proxy_locked proxy_unlocked : Event
  stored : List ℕ → Event

pub record Reply : Type 0 where
  pub result : ℤ
  pub out : List ℕ
  pub events : List Event
  pub input : List ℕ

-- The note that the answer came from the cache.
unfoldable pub hit_note : List ℕ → List ℕ
unfolding append_str
hit_note role =
    append_str 64 (append_str 64 [] (codes "CACHE_HIT" ++ (tab ∷ []))) role ++ (newline ∷ [])

unfoldable pub on_hit : ℤ → List ℕ → List ℕ → List ℕ → Reply
unfolding hit_note
on_hit fd out role input = record {
  result = pos (strlen out);
  out = out;
  events = if ltb_ℤ fd (pos 0) then [] else wrote (hit_note role) ∷ [];
  input = input;
}

-- memmove(out, payload, plen); out[plen] = 0;
unfoldable pub fill : List ℕ → List ℕ → List ℕ
unfolding overwrite
fill out payload = set (overwrite (length payload) payload out) (length payload) 0

-- After proxy_recv() and proxyunlock().
unfoldable pub received : List ℕ → List ℕ → Option (List ℕ × List ℕ) → Reply
unfolding fill
received out line none = record {
  result = negsuc 0;
  out = out;
  events = proxy_locked ∷ wrote line ∷ proxy_unlocked ∷ [];
  input = [];
}
received out line (some (payload, rest)) = record {
  result = pos (length payload);
  out = fill out payload;
  events = proxy_locked ∷ wrote line ∷ proxy_unlocked ∷ stored (fill out payload) ∷ [];
  input = rest;
}

unfoldable pub ask_host : ℤ → ℕ → List ℕ → List ℕ → ℕ → List ℕ → Option (List ℕ) → Reply
ask_host fd pid out role outmax input none = record {
  result = negsuc 0;
  out = out;
  events = proxy_locked ∷ proxy_unlocked ∷ [];
  input = input;
}
ask_host fd pid out role outmax input (some line) =
    received out line (proxy_recv fd pid false outmax input)

unfoldable pub proxy_call : ℤ → ℕ → ℤ → List ℕ → List ℕ → List ℕ → ℕ → List ℕ → Reply
proxy_call fd pid hit out role prompt outmax input =
    if eqb_ℤ hit (pos 0)
    then ask_host fd pid out role outmax input (proxy_send fd pid (some role) (some prompt))
    else on_hit fd out role input
