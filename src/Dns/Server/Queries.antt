-- ===== src/Dns/Server/Queries.antt =====
-- What the queries and the changes of the configuration do to the server.
use cncache_hub.Prelude.{
  ℕ, ◌+◌, ◌≡◌, inl, inr, refl, ◌∙◌, Bool, true, false, not, List, [], ◌∷◌, ◌==◌, length, arith,
  Bool-cases,
}
use cncache_hub.Text.{Bytes, codes, is_empty, trim_suffix, to_lower}
use cncache_hub.Dns.Config.{Config}
use cncache_hub.Dns.Server.{
  Server, Question, Exchanged, exchange_error, exchange_nil, exchange_message, reply_local_a,
  forwarded, forward_to_upstream, handle_query, match_domain, type_aaaa, start, stop, reload,
}

-- The answers that are counted by their kind.
abbrev pub outcomes : Server → ℕ
outcomes s = s.hit_q + s.miss_q + s.blocked_q

-- One more outcome, and the total as it was.
abbrev Counted : Server → Server → Type 0
Counted s t = (outcomes t ≡ outcomes s + 1) × (t.total_q ≡ s.total_q) × (t.cfg ≡ s.cfg)

reply_local_a-Counted :
    (is_ip : Bytes → Bool) (s : Server) (q : Question) → Counted s (reply_local_a is_ip s q).0
unfolding reply_local_a
reply_local_a-Counted is_ip s q = ground arith

forwarded-Counted : (s : Server) (x : Exchanged) → Counted s (forwarded s x).0
forwarded-Counted s (exchange_error e) = (omega arith, refl, refl)
forwarded-Counted s exchange_nil = (omega arith, refl, refl)
forwarded-Counted s (exchange_message m) = (omega arith, refl, refl)

forward-Counted :
    (exchange : Bytes → Exchanged) (s : Server) → Counted s (forward_to_upstream exchange s).0
unfolding forward_to_upstream
forward-Counted exchange s = elim (Bool-cases (is_empty s.cfg.upstream)) [
  | inl e ↦ rw e (omega arith, refl, refl)
  | inr e ↦ rw e (forwarded-Counted s (exchange s.cfg.upstream))
]

-- A query that comes in: its time, its questions, and what the upstream would answer.
pub record Event : Type 0 where
  pub time : ℕ
  pub questions : List Question
  pub upstream_answer : Exchanged

unfoldable pub handle_all : (Bytes → Bool) → List Event → Server → Server
handle_all is_ip [] s = s
handle_all is_ip (e ∷ es) s =
    handle_all is_ip es (handle_query is_ip (λ a. e.upstream_answer) e.time s e.questions).0

abbrev pub asks : List Question → ℕ
asks [] = 0
asks (q ∷ qs) = 1

unfoldable pub asking : List Event → ℕ
asking [] = 0
asking (e ∷ es) = asks e.questions + asking es

pub query_counts :
    (is_ip : Bytes → Bool) (exchange : Bytes → Exchanged) (now : ℕ) (s : Server)
    (qs : List Question)
    → let t = (handle_query is_ip exchange now s qs).0 in
      (outcomes t ≡ outcomes s + asks qs) × (t.total_q ≡ s.total_q + 1)
unfolding handle_query
query_counts is_ip exchange now s [] = (omega arith, refl)
query_counts is_ip exchange now s (q ∷ qs) =
    let s' = record s { total_q = s.total_q + 1; last_query = now } in
    let (a, b, c) = forward-Counted exchange s' in
    let (d, e, f) = reply_local_a-Counted is_ip s' q in
    elim (Bool-cases (q.qtype == type_aaaa)) [
      | inl k ↦ rw k (a, b)
      | inr k ↦ elim (Bool-cases (match_domain s' (to_lower (trim_suffix q.name (codes "."))))) [
        | inl m ↦ rw (k, m) (d, e)
        | inr m ↦ rw (k, m) (a, b)
      ]
    ]

-- Over any queries, each is counted in the total, and each that asks something is counted once
-- among the hits, the misses and the blocked.
pub handle_all-counts :
    (is_ip : Bytes → Bool) (es : List Event) (s : Server)
    → (outcomes (handle_all is_ip es s) ≡ outcomes s + asking es)
      × ((handle_all is_ip es s).total_q ≡ s.total_q + length es)
unfolding handle_all asking
handle_all-counts is_ip [] s = (omega arith, omega arith)
handle_all-counts is_ip (e ∷ es) s =
    let t = (handle_query is_ip (λ a. e.upstream_answer) e.time s e.questions).0 in
    let (a, b) = handle_all-counts is_ip es t in
    let (c, d) = query_counts is_ip (λ a. e.upstream_answer) e.time s e.questions in
    (omega (arith, a, c), omega (arith, b, d))

-- A name that the rules take is never asked of the upstream, unless the question is for AAAA: the
-- answer and the counts do not depend on the upstream.
pub listed_stays_local :
    (is_ip : Bytes → Bool) (f g : Bytes → Exchanged) (now : ℕ) (s : Server) (q : Question)
    (qs : List Question)
    → (q.qtype == type_aaaa) ≡ false
    → match_domain s (to_lower (trim_suffix q.name (codes "."))) ≡ true
    → handle_query is_ip f now s (q ∷ qs) ≡ handle_query is_ip g now s (q ∷ qs)
unfolding handle_query match_domain
listed_stays_local is_ip f g now s q qs k m = rw (k, m) refl

-- The configuration that a server can start with.
abbrev pub IsStartable : Config → Type 0
IsStartable c =
    (c.enabled ≡ true)
    × (is_empty c.listen_addr ≡ false)
    × (is_empty c.answer_ip ≡ false)
    × (is_empty c.upstream ≡ false)

pub stop_lem :
    (a b : Bool) (s : Server)
    → ((stop a b s).0.udp_srv ≡ false) × (outcomes (stop a b s).0 ≡ outcomes s)
unfolding stop
stop_lem a b s = elim (Bool-cases s.udp_srv) [
  | inl e ↦ rw e (refl, refl)
  | inr e ↦ rw e (refl, refl)
]

started :
    (busy : Bool) (s : Server)
    → s.udp_srv ≡ false
    → s.cfg.enabled ≡ true
    → is_empty s.cfg.listen_addr ≡ false
    → is_empty s.cfg.answer_ip ≡ false
    → is_empty s.cfg.upstream ≡ false
    → (start busy s).0.udp_srv ≡ not busy
unfolding start
started true s u e l a v = rw (e, l, a, v, u) refl
started false s u e l a v = rw (e, l, a, v, u) refl

start_lem :
    (busy : Bool) (s : Server)
    → s.udp_srv ≡ false
    → let r = start busy s in
      (r.0.cfg ≡ s.cfg)
      × (outcomes r.0 ≡ outcomes s)
      × (IsStartable s.cfg → r.0.udp_srv ≡ not busy)
      × (s.cfg.enabled ≡ false → r.0.udp_srv ≡ false)
unfolding start
start_lem busy s u =
    (ground arith, ground arith, λ (e, l, a, v). started busy s u e l a v, λ e. rw e u)

-- Whatever the server did before and however its stop went, a reload with a complete configuration
-- that is enabled leaves it listening, when the port is free, and not listening, with an error,
-- when it is not; one that is disabled leaves it not listening. The configuration is the new one
-- and the counts stay.
reload_lem :
    (a b busy : Bool) (s : Server) (cfg : Config)
    → let r = reload a b busy s cfg in
      (r.0.cfg ≡ cfg)
      × (outcomes r.0 ≡ outcomes s)
      × (IsStartable cfg → r.0.udp_srv ≡ not busy)
      × (cfg.enabled ≡ false → r.0.udp_srv ≡ false)
unfolding reload
reload_lem a b busy s cfg =
    let (u, o) = stop_lem a b s in
    let (c, d, e, f) = start_lem busy (record (stop a b s).0 { cfg = cfg }) u in (c, d ∙ o, e, f)
