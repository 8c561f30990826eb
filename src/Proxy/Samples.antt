-- ===== src/Proxy/Samples.antt =====
-- The theorems on the proxy at concrete packets, and tests.
use cn_lab.Base.{
  ℕ, ◌+◌, ◌≡◌, ◌≢◌, refl, ◌<◌, some, none, [], ◌∷◌, ◌++◌, arith, codes, if◌then◌else◌, ◌==◌,
}
use cn_lab.Base.Words.{htons}
use cn_lab.Base.Memory.{Memory, load_all, store_all}
use cn_lab.Checksum.{in_cksum}
use cn_lab.Proxy.{Packet, print_data, printed, from_proxy, proxy_packets, corn_packets}
use cn_lab.Proxy.Print.{print_data_lem}
use cn_lab.Proxy.Relay.{proxy-corn}
use cn_lab.Proxy.Checksums.{ip_header, proxy_packets-stale}
use mathlib.Core.List.{map}

abbrev clean : Memory
clean = λ q. 0

-- A packet for 84.30.20.1 with the payload "hi", whose header verifies.
abbrev small : Packet
small = record {
  buffer = store_all 54 (codes "hi") (
      store_all 14
        (69 ∷ 0 ∷ 0 ∷ 0 ∷ 0 ∷ 0 ∷ 0 ∷ 0 ∷ 0 ∷ 0 ∷ 82 ∷ 224 ∷ 0 ∷ 0 ∷ 0 ∷ 0 ∷ 84 ∷ 30 ∷ 20 ∷ 1 ∷ 0
          ∷ 0 ∷ 7 ∷ 228 ∷ [])
        (λ q. if q == 47 then 24 else 0));
  len = 56;
}

-- At byte 16 a line of PrintData begins anew, with nothing between.
print_data_lem_example :
    print_data (λ i. 65 + i) 18 ≡ map printed (load_all 18 (λ i. 65 + i) 0) ++ b'\n' ∷ []
print_data_lem_example = print_data_lem (λ i. 65 + i) 18

proxy-corn_example :
    (q : Packet) × (proxy_packets small ≡ some q)
    × (corn_packets q ≡ from_proxy ++ codes "hi" ++ b'\n' ∷ [])
    × (corn_packets small ≡ [])
    × (proxy_packets q ≡ none)
unfolding htons load_all printed
proxy-corn_example = proxy-corn small refl refl

small_verifies : in_cksum (ip_header small) ≡ 0
unfolding in_cksum load_all
small_verifies = refl

small-lt : (q : ℕ) → small.buffer q < 256
small-lt q = ground arith

proxy_packets-stale_example :
    (q : Packet) × (proxy_packets small ≡ some q) × (in_cksum (ip_header q) ≢ 0)
unfolding htons load_all
proxy_packets-stale_example = proxy_packets-stale small small-lt refl refl refl small_verifies
