-- ===== src/Libk/Tests.antt =====
-- Numbers written by libk/ultostr.c and read by libk/strtoul.c, and strings of libk/string.c.
use ox.Base.{◌∷◌, ◌≡◌, refl, inr, [], arith}
use ox.Libk.Strings.{strstr}
use ox.Libk.Strings.Find.{Found, strstr-Found}
use ox.Libk.RoundTrip.{strtoul-ultostr, atoi-itoa}
use ox.Libk.Strtoul.{strtoul, atoi}
use ox.Libk.Ultostr.{hex, ultostr, itoa}

strtoul-ultostr_example : strtoul (ultostr 48879 hex).0 hex ≡ (48879, [])
strtoul-ultostr_example = strtoul-ultostr 48879 hex (omega arith) (inr (inr refl))

-- The word of -42.
atoi-itoa_example : atoi (itoa 4294967254).0 ≡ 4294967254
atoi-itoa_example = atoi-itoa 4294967254 (omega arith)

strstr-Found_example : Found (b'a' ∷ b'b' ∷ []) (b'b' ∷ []) (strstr (b'a' ∷ b'b' ∷ []) (b'b' ∷ []))
strstr-Found_example = strstr-Found (b'a' ∷ b'b' ∷ []) (b'b' ∷ [])
