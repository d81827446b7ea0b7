-- ===== src/Access/ClientIp/Trust.antt =====
-- Whom the headers of a proxy are believed from.
use cncache_hub.Prelude.{
  ℕ, ◌≡◌, refl, sym, ap, ◌∙◌, true, false, some, List, [], ◌∷◌, ◌++◌, ◌==◌, length, arith, All,
  take-append,
}
use cncache_hub.Text.{Bytes, is_empty, trim_space, index_byte}
use cncache_hub.Access.ClientIp.{Net, Request, remote_host, is_trusted_proxy, first_address, real}

remote_host_same :
    (net : Net) (r s : Request)
    → r.remote_addr ≡ s.remote_addr
    → remote_host net r ≡ remote_host net s
unfolding remote_host
remote_host_same net r s e = rw e refl

trusted_same :
    (net : Net) (trusted : List net.IpNet) (r s : Request)
    → r.remote_addr ≡ s.remote_addr
    → is_trusted_proxy net trusted r ≡ is_trusted_proxy net trusted s
unfolding is_trusted_proxy
trusted_same net trusted r s e = rw (is_trusted_proxy, remote_host_same net r s e) refl

-- Two requests from the same peer, which is no trusted proxy, have the same client address,
-- whatever their headers say.
pub real_untrusted :
    (net : Net) (trusted : List net.IpNet) (r s : Request)
    → r.remote_addr ≡ s.remote_addr
    → is_trusted_proxy net trusted r ≡ false
    → real net trusted r ≡ real net trusted s
unfolding real
real_untrusted net trusted r s e h =
    let h' : is_trusted_proxy net trusted s ≡ false = sym (trusted_same net trusted r s e) ∙ h in
    rw (h, h') (remote_host_same net r s e)

index_byte-append :
    (a rest : Bytes) (b : ℕ)
    → All (λ c. (c == b) ≡ false) a
    → index_byte (a ++ b ∷ rest) b ≡ some (length a)
unfolding index_byte
index_byte-append [] rest b h = ground arith
index_byte-append (c ∷ a) rest b (n, h) = rw (index_byte, n, index_byte-append a rest b h) refl

not_empty-append : (a rest : Bytes) (b : ℕ) → is_empty (a ++ b ∷ rest) ≡ false
not_empty-append [] rest b = refl
not_empty-append (c ∷ a) rest b = refl

-- A trusted proxy that appends the peer's address to the X-Forwarded-For that it was sent: the
-- client's address is what the client wrote before the first comma.
real_appended :
    (net : Net) (trusted : List net.IpNet) (r : Request) (claimed appended : Bytes)
    → is_trusted_proxy net trusted r ≡ true
    → All (λ c. (c == 44) ≡ false) claimed
    → real net trusted (record r { x_forwarded_for = claimed ++ 44 ∷ appended })
      ≡ trim_space claimed
unfolding real first_address
real_appended net trusted r claimed appended h l =
    let s = record r { x_forwarded_for = claimed ++ 44 ∷ appended } in
    let h' : is_trusted_proxy net trusted s ≡ true = trusted_same net trusted s r refl ∙ h in
    rw
      (
        h',
        not_empty-append claimed appended 44,
        first_address,
        index_byte-append claimed appended 44 l,
      )
      (ap trim_space (take-append claimed (44 ∷ appended)))
