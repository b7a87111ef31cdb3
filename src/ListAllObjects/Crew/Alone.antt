-- ===== src/ListAllObjects/Crew/Alone.antt =====
-- One worker of a crew by itself, over the network that answers it: its accesses of the shared
-- state, and the requests of worker.cpp between them.
use s3cpp.Prelude.{ap, ℕ, ◌≡◌, refl, true, false, Bool, Option, none, some, List, [], ◌++◌, Text}
use s3cpp.S3.Types.{Object, CommonPrefix}
use s3cpp.ListAllObjects.Misc.{OutputFormat, ListObjectsApiVersion, Shared}
use s3cpp.ListAllObjects.Process.{ClientApi, listed, raised, Page, list_one}
use s3cpp.ListAllObjects.Crew.{
  Phase, listing, recording, checking, leaving, Crew, Act, to_list, Reach, acts, here as at_rest,
  next as and_then,
}

-- The crew of a shared state and the workers that stand as they are given.
abbrev pub crew_of : Shared → List Phase → List CommonPrefix → List CommonPrefix → Crew
crew_of s workers found taken = record {
  shared = s;
  workers = workers;
  found = found;
  taken = taken;
  reported = [];
}

module _ (serialize : Object → Text) (format : OutputFormat) where
  pub Reach-trans :
      {c d e : Crew}
      → Reach serialize format c d
      → Reach serialize format d e
      → Reach serialize format c e
  Reach-trans r at_rest = r
  Reach-trans r (and_then q s) = and_then (Reach-trans r q) s

abbrev pub is_listing : Phase → Bool
is_listing (listing p d) = true
is_listing _ = false

-- The token that the next request of the prefix sends, behind an access in this phase.
abbrev pub token_behind : Phase → Option Text
token_behind (recording p d page) = page.token
token_behind _ = none

module _ (c : ClientApi) where
  open c use {Net}

  -- A worker, or none behind its end, with the token that its next request sends.
  pub record Solo : Type 0 where
    pub phase : Option Phase
    pub token : Option Text
    pub shared : Shared
    pub net : Net

  abbrev pub at : Option Phase → Option Text → Shared → Net → Solo
  at phase token s net = record { phase = phase; token = token; shared = s; net = net }

  module _ (bucket : Text) (version : ListObjectsApiVersion) (serialize : Object → Text)
      (format : OutputFormat) where
    -- What the network has to do with an access that leads from phase `w` to `w'`: a worker that
    -- lists a prefix sends its request, and goes on with the page, drops a repeated one or leaves by the
    -- exception; any other access leaves the network alone.
    pub data Hears (token : Option Text) (net : Net) (w : Phase) (w' : Option Phase)
        (token' : Option Text) (net' : Net) : Type 0 where
      page :
          (p : CommonPrefix) (d : ℕ) (page : Page)
          → w ≡ listing p d
          → list_one c bucket version p.prefix token net ≡ (listed page, net')
          → page.repeated ≡ false
          → w' ≡ some (recording p d page)
          → token' ≡ none
          → Hears token net w w' token' net'
      again :
          (p : CommonPrefix) (d : ℕ) (page : Page)
          → w ≡ listing p d
          → list_one c bucket version p.prefix token net ≡ (listed page, net')
          → page.repeated ≡ true
          → w' ≡ some checking
          → token' ≡ none
          → Hears token net w w' token' net'
      exception :
          (p : CommonPrefix) (d : ℕ) (what : Text)
          → w ≡ listing p d
          → list_one c bucket version p.prefix token net ≡ (raised what, net')
          → w' ≡ some leaving
          → token' ≡ none
          → Hears token net w w' token' net'
      nothing :
          is_listing w ≡ false
          → net' ≡ net
          → token' ≡ token_behind w
          → Hears token net w w' token' net'

    -- An access of this worker, with what it hears.
    pub data OwnStep (a b : Solo) : Type 0 where
      own :
          (w : Phase) (w' : Option Phase) (s' : Shared) (took found : List CommonPrefix)
          (token' : Option Text) (net' : Net)
          → a.phase ≡ some w
          → Act serialize format w a.shared w' s' took found
          → Hears a.token a.net w w' token' net'
          → b ≡ at w' token' s' net'
          → OwnStep a b

    pub data Alone (a : Solo) : Solo → Type 0 where
      here : Alone a a
      next : {b d : Solo} → Alone a b → OwnStep b d → Alone a d

    pub Alone-trans : {a b d : Solo} → Alone a b → Alone b d → Alone a d
    Alone-trans r here = r
    Alone-trans r (next q s) = next (Alone-trans r q) s

    -- An access without a request.
    pub quietly :
        (w : Phase) (w' : Option Phase) (token : Option Text) (s s' : Shared) (net : Net)
        (took found : List CommonPrefix)
        → is_listing w ≡ false
        → Act serialize format w s w' s' took found
        → Alone (at (some w) token s net) (at w' (token_behind w) s' net)
    quietly w w' token s s' net took found n a =
        next here (own w w' s' took found (token_behind w) net refl a (nothing n refl refl) refl)

    -- What a worker does by itself, the first one of a crew can do among any others.
    pub Alone-Reach :
        (a b : Solo) (others : List Phase) (found taken : List CommonPrefix)
        → Alone a b
        → (found' taken' : List CommonPrefix) × Reach serialize format
            (crew_of a.shared (to_list a.phase ++ others) found taken)
            (crew_of b.shared (to_list b.phase ++ others) found' taken')
    Alone-Reach a b others found taken here = (found, taken, at_rest)
    Alone-Reach a d others found taken (next {b} r (own w w' s' took new token' net' e act h t)) =
        let (found', taken', q) = Alone-Reach a b others found taken r in
        (
          new ++ found',
          took ++ taken',
          and_then q
              (acts [] others w w' s' took new (ap (λ o. to_list o ++ others) e) act (rw t refl)),
        )
