-- ===== src/Api/ServerPath/Laws.antt =====
-- What an address with an identifier looks like.
use blockops.Prelude.{
  ◌≡◌, ◌≢◌, refl, ap, ◌∙◌, Option, none, some, [], ◌∷◌, ◌++◌, All, ◌↔◌, false, Option-cases, inl,
  inr, arith,
}
use blockops.Js.Text.{Text, codes}
use blockops.Js.Uri.{encode_uri_component, IsSegmentUnit, encode_uri_component-IsSegmentUnit}
use blockops.Api.Error.{api}
use blockops.Api.Client.{Outcome, returned, thrown, truthy}
use blockops.Api.ServerPath.{with_id, under_server, server_path, no_server, and_then, backup_path}

-- A text is some text before an encoded identifier and some text after it.
abbrev pub IsAround : Text → Text → Text → Text → Type 0
IsAround before id rest p =
    (t : Text) × (encode_uri_component id ≡ some t)
    × All IsSegmentUnit t
    × (p ≡ before ++ (t ++ rest))

with_id-IsAround :
    (before id rest p : Text) → with_id before id rest ≡ returned p → IsAround before id rest p
with_id-IsAround before id rest p h = elim (Option-cases (encode_uri_component id)) [
  | inl n ↦ let absurd = rw n at h in cc
  | inr (t, e) ↦ let same = rw e at h in (t, e, encode_uri_component-IsSegmentUnit id t e, cc)
]

server_path-IsAround :
    (server : Option Text) (path p : Text)
    → server_path server path ≡ returned p
    → (id : Text) × (server ≡ some id) × IsAround (codes "/api/v1/servers/") id path p
unfolding server_path
server_path-IsAround none path p h = cc
server_path-IsAround (some []) path p h = cc
server_path-IsAround (some (c ∷ s)) path p h =
    (c ∷ s, refl, with_id-IsAround (codes "/api/v1/servers/") (c ∷ s) path p h)

and_then-returned :
    (f : Text → Outcome Text) (o : Outcome Text) (p : Text)
    → and_then f o ≡ returned p
    → (t : Text) × (o ≡ returned t) × (f t ≡ returned p)
and_then-returned f (returned t) p h = (t, refl, h)
and_then-returned f (thrown e) p h = cc

-- An address of a backup names the session's server and the backup, each encoded as one path
-- segment: whatever the two identifiers hold, they add no segment, query or fragment to it.
pub backup_path-segments :
    (server : Option Text) (id rest p : Text)
    → backup_path server id rest ≡ returned p
    → (server_id a b : Text) × (server ≡ some server_id)
      × (encode_uri_component server_id ≡ some a)
      × (encode_uri_component id ≡ some b)
      × All IsSegmentUnit a
      × All IsSegmentUnit b
      × (p ≡ codes "/api/v1/servers/" ++ (a ++ (codes "/backups/" ++ (b ++ rest))))
unfolding backup_path
backup_path-segments server id rest p h =
    let (path, outer, inner) = and_then-returned (server_path server) _ p h in
    let (b, eb, sb, pb) = with_id-IsAround (codes "/backups/") id rest path outer in
    let (server_id, es, around) = server_path-IsAround server path p inner in
    let (a, ea, sa, pa) = around in
    (server_id, a, b, es, ea, eb, sa, sb, pa ∙ ap (λ q. codes "/api/v1/servers/" ++ (a ++ q)) pb)

under_server-other : (server_id path : Text) → under_server server_id path ≢ thrown (api no_server)
under_server-other server_id path h = elim (Option-cases (encode_uri_component server_id)) [
  | inl n ↦ let e = rw n at h in cc
  | inr (t, y) ↦ let e = rw y at h in cc
]

-- A path is refused with the code `no_server` exactly if the session has no server identifier or an
-- empty one.
pub server_path-no_server_iff :
    (server : Option Text) (path : Text)
    → (server_path server path ≡ thrown (api no_server)) ↔ (truthy server ≡ false)
unfolding server_path
server_path-no_server_iff none path = ground arith
server_path-no_server_iff (some []) path = ground arith
server_path-no_server_iff (some (c ∷ s)) path =
    (λ h. elim (under_server-other (c ∷ s) path h) [ ], λ e. cc)
