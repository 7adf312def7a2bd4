-- ===== src/Crhchttp/Hidden.antt =====
-- What the log of a request shows of its credentials.
use Prim.Native.Nat.{zero}
use Prim.Native.Char.{Char, code}
use Prim.Native.String.{len}
use mathlib.Core.List.{map-append}
use text.Mathlib.TextLemmas.{nil-append, cons-append}
use text.Mathlib.TextEquality.{codes_equal}
use koku_metrics_operator.Base.{
  String, ◌<>◌, true, ◌≡◌, sym, ap, ◌∙◌, List, [], ◌∷◌, ◌++◌, map, All, ◌==◌, Bool-cases, inl, inr,
  refl, arith,
}
use koku_metrics_operator.Base.Text.{contains, join}
use koku_metrics_operator.Base.Split.{
  split, split_from, lacks, stars, split-join, split_from-sep, split_from-last, split_from-other,
  cons_first,
}
use koku_metrics_operator.Crhchttp.Scrub.{star_last, scrub_line, scrub_authorization}

join-star_last :
    (p q : String) (ps : List String) (sep : String)
    → join (p ∷ star_last (q ∷ ps)) sep ≡ p <> (sep <> join (star_last (q ∷ ps)) sep)
unfolding join star_last
join-star_last p q [] sep = refl
join-star_last p q (r ∷ ps) sep = refl

cons_sep : (c : Char) (s : String) → String.◌∷◌ c String.[] <> s ≡ String.◌∷◌ c s
cons_sep c s = cons-append c "" s ∙ ap (λ u. String.◌∷◌ c u) (nil-append s)

cons_front : (c : Char) (s t : String) → String.◌∷◌ c s <> t ≡ String.◌∷◌ c String.[] <> (s <> t)
cons_front c s t = cons-append c s t ∙ sym (cons_sep c (s <> t))

-- A line of pieces, the last of them of stars, in place of the text behind its last separator.
record Starred (c : Char) (head credentials : String) : Type 0 where
  first : String
  second : String
  others : List String
  pieces :
      split_from zero (head <> (String.◌∷◌ c String.[] <> credentials)) (String.◌∷◌ c String.[])
      ≡ first ∷ second ∷ others
  joined :
      join (star_last (first ∷ second ∷ others)) (String.◌∷◌ c String.[])
      ≡ head <> (String.◌∷◌ c String.[] <> stars (len credentials))

starred :
    (c : Char) (head credentials : String) → lacks c credentials ≡ true → Starred c head credentials
unfolding join star_last
starred c String.[] credentials free =
    let sep : String = String.◌∷◌ c String.[] in
    record {
      first = "";
      second = credentials;
      others = [];
      pieces =
          ap (λ t. split_from zero t sep) (nil-append (sep <> credentials))
          ∙ split_from-sep c String.[] credentials
          ∙ ap (λ l. "" ∷ l) (split_from-last c String.[] credentials free);
      joined = refl;
    }
starred c (String.◌∷◌ d head) credentials free =
    let sep : String = String.◌∷◌ c String.[] in
    let t = sep <> credentials in
    let hidden = sep <> stars (len credentials) in
    let rest = starred c head credentials free in
    elim (Bool-cases (code c == code d)) [
      | inl e ↦
          let same : d ≡ c = codes_equal d c (ground (arith, e)) in
          record {
            first = "";
            second = rest.first;
            others = rest.second ∷ rest.others;
            pieces = rw same (
                ap (λ u. split_from zero u sep) (cons_front c head t)
                ∙ split_from-sep c String.[] (head <> t)
                ∙ ap (λ l. "" ∷ l) rest.pieces);
            joined = rw same (
                join-star_last "" rest.first (rest.second ∷ rest.others) sep
                ∙ nil-append _
                ∙ ap (λ u. sep <> u) rest.joined
                ∙ sym (cons_front c head hidden));
          }
      | inr e ↦ record {
        first = String.◌∷◌ d rest.first;
        second = rest.second;
        others = rest.others;
        pieces =
            ap (λ u. split_from zero u sep) (cons-append d head t)
            ∙ split_from-other c String.[] d (head <> t) e
            ∙ ap (cons_first d) rest.pieces;
        joined =
            join-star_last (String.◌∷◌ d rest.first) rest.second rest.others sep
            ∙ cons-append d rest.first _
            ∙ ap (λ u. String.◌∷◌ d u)
                (sym (join-star_last rest.first rest.second rest.others sep) ∙ rest.joined)
            ∙ sym (cons-append d head hidden);
      }
    ]

scrub_line-stars :
    (head credentials : String)
    → lacks " " credentials ≡ true
    → contains (head <> (" " <> credentials)) "Authorization" ≡ true
    → scrub_line (head <> (" " <> credentials)) ≡ head <> (" " <> stars (len credentials))
unfolding scrub_line split
scrub_line-stars head credentials free named =
    let h = starred " " head credentials free in
    rw named (ap (λ l. join (star_last l) " ") h.pieces ∙ h.joined)

-- Lines can be told apart, if none has a carriage return.
scrub_authorization-lines :
    (line : String) (lines : List String)
    → All (λ s. lacks "\r" s ≡ true) (line ∷ lines)
    → scrub_authorization (join (line ∷ lines) "\r\n") ≡ join (map scrub_line (line ∷ lines)) "\r\n"
unfolding scrub_authorization
scrub_authorization-lines line lines free =
    ap (λ l. join (map scrub_line l) "\r\n") (split-join "\r" "\n" line lines free)

-- If no line of a dumped request has a carriage return and the line after the first ones names
-- Authorization and ends with credentials behind a space, in which no space is, then what is logged
-- has as many stars in place of the credentials, and the other lines are scrubbed by themselves: of
-- the credentials it shows their length alone.
pub scrub_authorization-hides :
    (first : String) (before : List String) (head credentials : String) (later : List String)
    → All (λ s. lacks "\r" s ≡ true) (first ∷ (before ++ ((head <> (" " <> credentials)) ∷ later)))
    → lacks " " credentials ≡ true
    → contains (head <> (" " <> credentials)) "Authorization" ≡ true
    → scrub_authorization
        (join (first ∷ (before ++ ((head <> (" " <> credentials)) ∷ later))) "\r\n")
      ≡ join
          (scrub_line first
            ∷ (map scrub_line before
                ++ ((head <> (" " <> stars (len credentials))) ∷ map scrub_line later)))
          "\r\n"
scrub_authorization-hides first before head credentials later lines free named =
    scrub_authorization-lines first (before ++ ((head <> (" " <> credentials)) ∷ later)) lines
    ∙ ap (λ l. join (scrub_line first ∷ l) "\r\n")
        (map-append scrub_line before ((head <> (" " <> credentials)) ∷ later)
          ∙ ap (λ s. map scrub_line before ++ (s ∷ map scrub_line later))
              (scrub_line-stars head credentials free named))
