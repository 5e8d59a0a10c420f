-- ===== src/Protocol/Lists/Unread.antt =====
-- What `unreadConfsCallback.OK` makes of a list of conference numbers.
use komandgo.Base.{
  ℕ, suc, ◌%◌, ◌^◌, ◌<◌, ◌≡◌, refl, ap, ◌∙◌, Bool, true, false, List, [], ◌∷◌, ◌++◌, Option, none,
  some, Bytes, codes, length, drop, get_elem?, All, arith, append_assoc, append-nil,
}
use komandgo.Fmt.{format_decimal}
use komandgo.Fmt.Decimal.{format-head}
use komandgo.Io.{GoError}
use komandgo.Protocol.Lists.{atoi, skip_braces, unread_loop}
use komandgo.Protocol.Lists.Parts.{parts, atoi-format}
use komandgo.Protocol.Response.{Response, unread_confs_response}
use komandgo.Protocol.Server.{same_bytes}
use komandgo.Utils.Numbers.{get_elem?-drop}

unread_loop-step :
    (n : ℕ) (tmp : List Bytes) (pos : ℕ) (arr : List ℕ) (err : Option GoError)
    (out : List (Bool × Response)) {s : Bytes} {v : ℕ}
    → get_elem? tmp pos ≡ some s
    → atoi s ≡ some v
    → unread_loop (suc n) tmp pos arr err out
      ≡ unread_loop n tmp (suc pos) (arr ++ (v % 2 ^ 16) ∷ []) err out
unfolding unread_loop
unread_loop-step n tmp pos arr err out e a = ground (arith, e, a)

unread_loop_done :
    (tmp : List Bytes) (pos : ℕ) (arr : List ℕ)
    → unread_loop 0 tmp pos arr none [] ≡ some ((true, unread_confs_response arr none) ∷ [])
unfolding unread_loop
unread_loop_done tmp pos arr = refl

pub unread_loop-parts :
    (ns : List ℕ) (tmp : List Bytes) (pos : ℕ) (arr : List ℕ)
    → drop pos tmp ≡ parts ns
    → All (λ n. n < 2 ^ 16) ns
    → unread_loop (length ns) tmp pos arr none []
      ≡ some ((true, unread_confs_response (arr ++ ns) none) ∷ [])
unread_loop-parts [] tmp pos arr e h = rw (append-nil arr) (unread_loop_done tmp pos arr)
unread_loop-parts (n ∷ ns) tmp pos arr e (h, hs) =
    let (here, next) = get_elem?-drop tmp pos (format_decimal n) (parts ns) e in
    let small : n % 2 ^ 16 ≡ n = omega (arith, h) in
    unread_loop-step (length ns) tmp pos arr none [] here (atoi-format n (omega (arith, h)))
    ∙ rw small (
        unread_loop-parts ns tmp (suc pos) (arr ++ n ∷ []) next hs
        ∙ ap (λ ms. some ((true, unread_confs_response ms none) ∷ []))
            (append_assoc arr (n ∷ []) ns))

no_brace : (n : ℕ) → same_bytes (format_decimal n) (codes "{") ≡ false
unfolding same_bytes
no_brace n = let (c, ds, e, hc) = format-head n in rw e (ground (arith, hc))

-- The first part is a brace, and the second is not.
pub skip_braces-parts :
    (fuel : ℕ) (ns : List ℕ) → skip_braces (suc (suc fuel)) (codes "{" ∷ parts ns) 0 ≡ some 1
unfolding skip_braces
skip_braces-parts fuel [] = refl
skip_braces-parts fuel (n ∷ ns) = rw (no_brace n) refl
