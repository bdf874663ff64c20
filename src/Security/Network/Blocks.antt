-- ===== src/Security/Network/Blocks.antt =====
-- The refused IPv4 ranges as blocks of numbers.
use klyvero.Common.{
  ℕ, ◌+◌, ◌*◌, ◌^◌, ◌-◌, ◌≤◌, ◌≡◌, refl, ◌∙◌, arith, Bool, true, false, ◌&&◌, ◌||◌, List, [], ◌∷◌,
  leb, ltb, ◌==◌, any,
}
use klyvero.Security.Network.{is_reserved}

-- A block of addresses: its first one, and the length of its prefix.
pub record Block : Type 0 where
  pub base : ℕ
  pub prefix : ℕ

-- The number of an address.
abbrev pub address : ℕ → ℕ → ℕ → ℕ → ℕ
address a b c d = 16777216 * a + 65536 * b + 256 * c + d

abbrev pub is_in : ℕ → Block → Bool
is_in n k = leb k.base n && ltb n (k.base + 2 ^ (32 - k.prefix))

abbrev pub reserved_blocks : List Block
reserved_blocks =
    record { base = address 0 0 0 0; prefix = 8 }
    ∷ record { base = address 10 0 0 0; prefix = 8 }
    ∷ record { base = address 127 0 0 0; prefix = 8 }
    ∷ record { base = address 100 64 0 0; prefix = 10 }
    ∷ record { base = address 169 254 0 0; prefix = 16 }
    ∷ record { base = address 172 16 0 0; prefix = 12 }
    ∷ record { base = address 192 168 0 0; prefix = 16 }
    ∷ record { base = address 192 0 0 0; prefix = 16 }
    ∷ record { base = address 198 18 0 0; prefix = 15 }
    ∷ record { base = address 198 51 100 0; prefix = 24 }
    ∷ record { base = address 203 0 113 0; prefix = 24 }
    ∷ record { base = address 224 0 0 0; prefix = 3 }
    ∷ []

or_cong : {x x' y y' : Bool} → x ≡ x' → y ≡ y' → (x || y) ≡ (x' || y')
or_cong p q = rw (p, q) refl

or_assoc : (x y z : Bool) → ((x || y) || z) ≡ (x || (y || z))
or_assoc true y z = refl
or_assoc false y z = refl

or_false : (x : Bool) → (x || false) ≡ x
or_false true = refl
or_false false = refl

module _ (a b c d : ℕ) (ha : a ≤ 255) (hb : b ≤ 255) (hc : c ≤ 255) (hd : d ≤ 255) where
  zero : (a == 0) ≡ is_in (address a b c d) (record { base = address 0 0 0 0; prefix = 8 })
  zero = ground arith

  private_ten : (a == 10) ≡ is_in (address a b c d) (record { base = address 10 0 0 0; prefix = 8 })
  private_ten = ground arith

  loopback : (a == 127) ≡ is_in (address a b c d) (record { base = address 127 0 0 0; prefix = 8 })
  loopback = ground arith

  shared :
      (a == 100 && leb 64 b && leb b 127)
      ≡ is_in (address a b c d) (record { base = address 100 64 0 0; prefix = 10 })
  shared = ground arith

  link_local :
      (a == 169 && b == 254)
      ≡ is_in (address a b c d) (record { base = address 169 254 0 0; prefix = 16 })
  link_local = ground arith

  private_172 :
      (a == 172 && leb 16 b && leb b 31)
      ≡ is_in (address a b c d) (record { base = address 172 16 0 0; prefix = 12 })
  private_172 = ground arith

  private_192 :
      (a == 192 && b == 168)
      ≡ is_in (address a b c d) (record { base = address 192 168 0 0; prefix = 16 })
  private_192 = ground arith

  special :
      (a == 192 && b == 0)
      ≡ is_in (address a b c d) (record { base = address 192 0 0 0; prefix = 16 })
  special = ground arith

  benchmark :
      (a == 198 && (b == 18 || b == 19))
      ≡ is_in (address a b c d) (record { base = address 198 18 0 0; prefix = 15 })
  benchmark = ground arith

  test_two :
      (a == 198 && b == 51 && c == 100)
      ≡ is_in (address a b c d) (record { base = address 198 51 100 0; prefix = 24 })
  test_two = ground arith

  test_three :
      (a == 203 && b == 0 && c == 113)
      ≡ is_in (address a b c d) (record { base = address 203 0 113 0; prefix = 24 })
  test_three = ground arith

  multicast :
      (leb 224 a) ≡ is_in (address a b c d) (record { base = address 224 0 0 0; prefix = 3 })
  multicast = ground arith

  absorbed :
      (z : Bool)
      → ((z || (a == 192 && b == 0)) || (a == 192 && b == 0 && c == 2))
        ≡ (z || (a == 192 && b == 0))
  absorbed z = ground arith

  -- An address whose octets are a, b, c and d is refused just where its number is in one of the
  -- reserved blocks.
  pub is_reserved-blocks : is_reserved a b c ≡ any (is_in (address a b c d)) reserved_blocks
  is_reserved-blocks =
      (or_cong
        (or_cong
          (or_cong
            (or_cong
              (absorbed _
                ∙ or_cong
                    (or_cong
                      (or_cong
                        (or_cong (or_cong (or_cong (or_cong zero private_ten) loopback) shared)
                          link_local)
                        private_172)
                      private_192)
                    special)
              benchmark)
            test_two)
          test_three)
        multicast)
      ∙ simp (or_assoc, or_false)
