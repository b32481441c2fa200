-- ===== src/HttpSource/Spoof.antt =====
-- What a client can not do with the header X-Forwarded-For.
use daxiang_vpn.Prelude.{
  ◌≤◌, ◌≡◌, refl, sym, ap, subst, ◌∙◌, ◌||◌, not, leb, Bool, true, false, List, [], ◌∷◌, ◌++◌,
  length, length-append, any, if◌then◌else◌, arith, ok, ◌>>=◌, ◌>>◌, require, require-ok, bind-ok,
  ok-inj,
}
use daxiang_vpn.Update.Text.{Bytes, split}
use daxiang_vpn.HttpSource.Defs.{
  is_empty, is_direct, is_known, max_xff_hops, SourceError, Addr, SourcePolicy, Request, Tools,
  known_proxy, parse_address, is_short, comma, join, read_hops, reverse, pick, forwarded_source,
  client_source, max_xff_bytes, host_of,
}
use daxiang_vpn.HttpSource.Hops.{
  is_client, split-append, is_short-join, read_hops-append, pick-reverse,
}

length-join-le : (f : List Bytes) → is_short 0 f ≡ true → length (join f) ≤ max_xff_bytes
unfolding join
length-join-le [] h = omega arith
length-join-le (v ∷ vs) h = omega (arith, is_short-join 0 v vs h)

forwarded_source-last :
    (t : Tools) (h : Bytes) (hops : List Addr) (s : Addr)
    → is_short 0 (h ∷ []) ≡ true
    → leb (length (split comma h)) max_xff_hops ≡ true
    → read_hops t (split comma h) ≡ ok hops
    → pick (reverse hops) ≡ ok s
    → forwarded_source t (h ∷ []) ≡ ok s
unfolding forwarded_source require ◌>>◌ ◌>>=◌ join
forwarded_source-last t h hops s short few read picked = rw (short, few, read) picked

forwarded_source-join :
    (t : Tools) (f : List Bytes) (e h : Bytes) (hops : List Addr) (s : Addr)
    → join f ≡ e ++ (comma ∷ h)
    → read_hops t (split comma h) ≡ ok hops
    → any is_client hops ≡ true
    → forwarded_source t f ≡ ok s
    → forwarded_source t (h ∷ []) ≡ ok s
unfolding forwarded_source
forwarded_source-join t f e h hops s j read client h0 =
    let (short, h1) = require-ok _ _ _ h0 in
    let (few, h2) = require-ok _ _ _ h1 in
    let (found, read_f, picked) = bind-ok _ _ h2 in
    let parts : split comma (join f) ≡ split comma e ++ split comma h =
      ap (split comma) j ∙ split-append comma e h in
    let (xs, (ys, (last, both))) =
      read_hops-append t (split comma e) (split comma h) found
        (ap (read_hops t) (sym parts) ∙ read_f) in
    let same : ys ≡ hops = ok-inj {E = SourceError} (sym last ∙ read) in
    let client_ys : any is_client ys ≡ true =
      subst (λ (l : List Addr). any is_client l ≡ true) (sym same) client in
    let size : length (join f) ≤ max_xff_bytes = length-join-le f short in
    let size_h : length h ≤ max_xff_bytes =
      omega (arith, size, ap length j, length-append {0} e (comma ∷ h)) in
    let short_h : is_short 0 (h ∷ []) ≡ true = unfold is_short in ground arith in
    let few_h : leb (length (split comma h)) max_xff_hops ≡ true =
      ground (arith, few, ap length parts, length-append {0} (split comma e) (split comma h)) in
    forwarded_source-last t h ys s short_h few_h last (
      sym (pick-reverse xs ys client_ys)
      ∙ ap (λ (l : List Addr). pick (reverse l)) (sym both)
      ∙ picked)

join-not_empty : (f : List Bytes) (e h : Bytes) → join f ≡ e ++ (comma ∷ h) → is_empty f ≡ false
unfolding join
join-not_empty [] [] h j = cc
join-not_empty [] (x ∷ e) h j = cc
join-not_empty (v ∷ vs) e h j = refl

source_if :
    (b : Bool) (t : Tools) (remote : Addr) (f : List Bytes) (e h : Bytes) (hops : List Addr)
    (s : Addr)
    → join f ≡ e ++ (comma ∷ h)
    → read_hops t (split comma h) ≡ ok hops
    → any is_client hops ≡ true
    → (if b then ok remote else forwarded_source t f) ≡ ok s
    → (if b then ok remote else forwarded_source t (h ∷ [])) ≡ ok s
source_if true t remote f e h hops s j read client q = q
source_if false t remote f e h hops s j read client q =
    forwarded_source-join t f e h hops s j read client q

client_source-ok :
    (t : Tools) (policy : SourcePolicy) (r : Request) (remote s : Addr) (source : Bytes)
    → is_known policy ≡ true
    → parse_address t (host_of t r.remote_addr) ≡ ok remote
    → (if is_direct policy || not (known_proxy remote) || is_empty r.forwarded
        then ok remote
        else forwarded_source t r.forwarded)
      ≡ ok s
    → t.text_of s ≡ source
    → client_source t policy r ≡ ok source
unfolding client_source require ◌>>◌ ◌>>=◌
client_source-ok t policy r remote s source known parsed chosen text =
    rw (known, parsed, chosen) (ap (λ (x : Bytes). ok x) text)

-- When the hops that the end of the header names, after some comma, parse and one of them is no known proxy:
-- what stands before that comma, be it in the same header line or in earlier ones, can make the
-- request be refused, but not change the source that it is counted under.
pub client_source-join :
    (t : Tools) (policy : SourcePolicy) (remote_addr : Bytes) (forwarded : List Bytes) (e h : Bytes)
    (hops : List Addr) (source : Bytes)
    → join forwarded ≡ e ++ (comma ∷ h)
    → read_hops t (split comma h) ≡ ok hops
    → any is_client hops ≡ true
    → client_source t policy (record { remote_addr = remote_addr; forwarded = forwarded })
      ≡ ok source
    → client_source t policy (record { remote_addr = remote_addr; forwarded = h ∷ [] }) ≡ ok source
unfolding client_source
client_source-join t policy remote_addr forwarded e h hops source j read client h0 =
    let (known, h1) = require-ok _ _ _ h0 in
    let (remote, parsed, h2) = bind-ok _ _ h1 in
    let (s, chosen, h3) = bind-ok _ _ h2 in
    let some_hops = join-not_empty forwarded e h j in
    client_source-ok t policy (record { remote_addr = remote_addr; forwarded = h ∷ [] }) remote s
      source known parsed
      (source_if (is_direct policy || not (known_proxy remote) || false) t remote forwarded e h hops
        s j read client
        (subst
          (λ (b : Bool).
            (if is_direct policy || not (known_proxy remote) || b
              then ok remote
              else forwarded_source t forwarded)
            ≡ ok s)
          some_hops chosen))
      (ok-inj {E = SourceError} h3)
