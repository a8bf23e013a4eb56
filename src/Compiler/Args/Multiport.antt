-- ===== src/Compiler/Args/Multiport.antt =====
-- `multiport` of internal/compiler/compiler.go: the ports in chunks that xt_multiport takes.
use zfw_dark.Common.{ℕ, zero, suc, ◌≤◌, List, [], ◌∷◌, map, ◌≡◌, refl, ap}
use zfw_dark.Common.{
  arith, All, cat, length, take, drop, take-append-drop, length-take, length-drop,
}
use zfw_dark.Common.Int.{ℤ}
use zfw_dark.Compiler.Args.{chunk_arg, multiport_from, multiport}

-- Lists of 1 to 15 ports that make up the ports, one for each fragment.
pub record Chunked (ports : List ℤ) : Type 0 where
  pub chunks : List (List ℤ)
  pub whole : cat chunks ≡ ports
  pub sizes : All (λ c. (1 ≤ length c) × (length c ≤ 15)) chunks

multiport_from-Chunked :
    (fuel : ℕ) (ports : List ℤ)
    → length ports ≤ fuel
    → (c : Chunked ports) × (multiport_from fuel ports ≡ map chunk_arg c.chunks)
unfolding multiport_from
multiport_from-Chunked zero [] h = (record { chunks = []; whole = refl; sizes = tt }, refl)
multiport_from-Chunked zero (p ∷ ports) h = absurd (omega arith)
multiport_from-Chunked (suc fuel) [] h = (record { chunks = []; whole = refl; sizes = tt }, refl)
multiport_from-Chunked (suc fuel) (p ∷ ports) h =
    let (c, e) =
      multiport_from-Chunked fuel (drop 14 ports) (omega (arith, length-drop 14 ports)) in
    (
      record {
        chunks = (p ∷ take 14 ports) ∷ c.chunks;
        whole = ap (◌∷◌ p) (rw c.whole (take-append-drop 14 ports));
        sizes = (omega (arith, length-take 14 ports), c.sizes);
      },
      ap (◌∷◌ (chunk_arg (p ∷ take 14 ports))) e,
    )

-- Every port list is cut, in order and whole, into chunks of 1 to 15 ports, and `multiport` gives
-- one fragment for each chunk.
pub multiport_chunks :
    (ports : List ℤ) → (c : Chunked ports) × (multiport ports ≡ map chunk_arg c.chunks)
unfolding multiport
multiport_chunks ports = multiport_from-Chunked (length ports) ports (omega arith)
