-- ===== src/ListAllObjects/Online.antt =====
-- worker.cpp over the client: what a worker's listing call asks of the server, and what it gets.
-- The session below the client and the timer are parameters.
use s3cpp.Std.Decimal.{digits_of, to_decimal}
use s3cpp.S3.Query.Shows.{optional}
use s3cpp.S3.Query.Steps.{AllSome}
use s3cpp.Prelude.{
  ◌++◌, [], arith, subst, ℕ, ◌≡◌, refl, ◌≢◌, sym, ap, ◌∙◌, ◌⊎◌, inl, inr, false, Option, none, some,
  List, ◌∷◌, Text, codes, Outcome, ok, IsBytes,
}
use s3cpp.Iam.BoostUrl.{BoostUrl, IsBoostUrl}
use s3cpp.S3.Types.{ListObjectsResult, ListObjectsV2Result, empty_result, empty_v2_result}
use s3cpp.S3.Xml.{Pugi, Describe}
use s3cpp.S3.Query.Reader.{read_query}
use s3cpp.S3.Query.RoundTrip.{
  list_objects_params, list_objects_v2_params, read_query-list_objects_prepare_query,
  read_query-list_objects_v2_prepare_query,
}
use s3cpp.S3.Parse.{parse_list_objects, parse_list_objects_v2}
use s3cpp.S3.Parse.Pages.{HasToken, parse_list_objects-HasToken, parse_list_objects_v2-HasToken}
use s3cpp.S3.Client.{SessionApi, ClientError, list_objects, list_objects_v2}
use s3cpp.S3.Client.Pages.{answered-ok}
use s3cpp.ListAllObjects.Misc.{ListObjectsApiVersion, v1, v2}
use s3cpp.ListAllObjects.Process.{
  map_listing, ClientApi, listed, raised, Page, page_v1, page_v2, list_one, retry, params_v1,
  params_v2, max_retries,
}
use s3cpp.ListAllObjects.Process.Retry.{retry-cases, Fails}

module _ (c : ClientApi) {A : Type 0} (call : c.Net → Outcome c.Error A × c.Net) (give_up : A) where
  -- A page is that of an answer, or every attempt failed.
  abbrev Answers : (A → Page) → ℕ → Page → c.Net → c.Net → Type 0
  Answers page_of n page net end =
      ((a : A) × (before : c.Net) × ((call before).0 ≡ ok a)
        × ((call before).1 ≡ end)
        × (page ≡ page_of a))
      ⊎ (Fails c call n net end × (page ≡ page_of give_up))

  page_of_listed : {page other : Page} → listed other ≡ listed page → page ≡ other
  page_of_listed e = cc

  retry-Answers :
      (page_of : A → Page) (n : ℕ) (page : Page) (net end : c.Net)
      → map_listing page_of (retry c call give_up n net) ≡ (listed page, end)
      → Answers page_of n page net end
  retry-Answers page_of n page net end e = elim (retry-cases c call give_up n net) [
    | inl (k, before, a, _, _, found, r) ↦
        let same = sym (ap (map_listing page_of) r) ∙ e in
        inl (a, before, found, ap (λ p. p.1) same, page_of_listed (ap (λ p. p.0) same))
    | inr (inl (k, before, t, _, _, _, r)) ↦
        let same = sym (ap (map_listing page_of) r) ∙ e in absurd (not_raised (ap (λ p. p.0) same))
    | inr (inr (after, fails, r)) ↦
        let same = sym (ap (map_listing page_of) r) ∙ e in
        inr (
          subst (Fails c call n net) (ap (λ p. p.1) same) fails,
          page_of_listed (ap (λ p. p.0) same),
        )
  ]
    where
      not_raised : {t : Text} {page : Page} → raised t ≢ listed page
      not_raised e = cc

-- The parameters that a server reads in the query for a prefix and a token.
abbrev pub expected : Option Text → Option Text → ListObjectsApiVersion → List (Text × Text)
expected prefix token v1 =
    (codes "max-keys", codes "1000") ∷ []
    ++ optional (codes "marker") token
    ++ (codes "delimiter", codes "/") ∷ []
    ++ optional (codes "prefix") prefix
expected prefix token v2 =
    (codes "list-type", codes "2") ∷ []
    ++ (codes "max-keys", codes "1000") ∷ []
    ++ optional (codes "continuation-token") token
    ++ (codes "delimiter", codes "/") ∷ []
    ++ optional (codes "prefix") prefix

module _ (c : ClientApi) (bucket : Text) where
  asks_v1 :
      (prefix token : Option Text)
      → list_objects_params (params_v1 c bucket prefix token) ≡ expected prefix token v1
  unfolding to_decimal digits_of
  asks_v1 prefix none = refl
  asks_v1 prefix (some t) = refl

  asks_v2 :
      (prefix token : Option Text)
      → list_objects_v2_params (params_v2 c bucket prefix token) ≡ expected prefix token v2
  unfolding to_decimal digits_of
  asks_v2 prefix none = refl
  asks_v2 prefix (some t) = refl

module _ (s : SessionApi) (u : BoostUrl) (x : Pugi) (d : Describe) (no_headers : s.Fields)
    (wait_second : s.Net → s.Net) where
  open s use {Net, Fields, ErrorCode, get}

  -- The client that a worker holds, called without headers.
  abbrev pub client_api : ClientApi
  client_api = record {
    Net = Net;
    Error = ClientError ErrorCode;
    list_objects = λ p net. list_objects s u x d p no_headers net;
    list_objects_v2 = λ p net. list_objects_v2 s u x d p no_headers net;
    wait_second = wait_second;
  }

  module _ (bucket : Text) (prefix token : Option Text) where
    -- The page is what the parser makes of the body.
    abbrev pub Gets : ListObjectsApiVersion → Text → Page → Type 0
    Gets v1 body page =
        (r : ListObjectsResult) × (parse_list_objects x d body ≡ ok r)
        × (page ≡ page_v1 r)
        × HasToken r.is_truncated page.token
    Gets v2 body page =
        (r : ListObjectsV2Result) × (parse_list_objects_v2 x d body ≡ ok r)
        × (page ≡ page_v2 r)
        × HasToken r.is_truncated page.token

    abbrev pub Asked : ListObjectsApiVersion → Page → Net → Type 0
    Asked version page end =
        (query body : Text) × (before : Net) × (get (b'/' ∷ bucket) query no_headers false before
          ≡ (ok body, end))
        × (read_query query ≡ some (expected prefix token version))
        × Gets version body page

    -- Five calls failed, and the page is empty.
    abbrev pub GaveUp : ListObjectsApiVersion → Page → Net → Net → Type 0
    GaveUp v1 page net end =
        Fails client_api (client_api.list_objects (params_v1 client_api bucket prefix token))
          max_retries net end
        × (page ≡ page_v1 empty_result)
    GaveUp v2 page net end =
        Fails client_api (client_api.list_objects_v2 (params_v2 client_api bucket prefix token))
          max_retries net end
        × (page ≡ page_v2 empty_v2_result)

    -- If a worker lists a page of a prefix that is bytes, at a token that is bytes, then five calls
    -- failed and the page is empty; or it is what the parser makes of the body of a response to a
    -- GET of the bucket, whose query a server reads as this prefix, this token, the delimiter / and
    -- at most 1000 keys, and it has a token, which is not empty, exactly when that body says that
    -- the listing is truncated.
    pub list_one-Asked :
        IsBoostUrl u
        → AllSome IsBytes prefix
        → AllSome IsBytes token
        → (version : ListObjectsApiVersion) (page : Page) (net end : Net)
        → list_one client_api bucket version prefix token net ≡ (listed page, end)
        → Asked version page end ⊎ GaveUp version page net end
    unfolding list_one list_objects list_objects_v2
    list_one-Asked laws bytes token_bytes v1 page net end e =
        elim (retry-Answers client_api _ empty_result page_v1 max_retries page net end e) [
          | inr gave_up ↦ inr gave_up
          | inl (r, before, found, same, p) ↦
              let (body, a, parsed) = answered-ok (parse_list_objects x d) _ found in
              inl (
                _,
                body,
                before,
                λ i. (a i, same i),
                read_query-list_objects_prepare_query u laws _ (record {
                  marker = token_bytes;
                  delimiter = (omega arith, tt);
                  encoding_type = tt;
                  not_url = λ e. cc;
                  prefix = bytes;
                })
                    ∙ ap some (asks_v1 client_api bucket prefix token),
                (
                  r,
                  parsed,
                  p,
                  subst (λ page. HasToken r.is_truncated page.token) (sym p)
                      (parse_list_objects-HasToken x d body r parsed),
                ),
              )
        ]
    list_one-Asked laws bytes token_bytes v2 page net end e =
        elim (retry-Answers client_api _ empty_v2_result page_v2 max_retries page net end e) [
          | inr gave_up ↦ inr gave_up
          | inl (r, before, found, same, p) ↦
              let (body, a, parsed) = answered-ok (parse_list_objects_v2 x d) _ found in
              inl (
                _,
                body,
                before,
                λ i. (a i, same i),
                read_query-list_objects_v2_prepare_query u laws _ (record {
                  continuation_token = token_bytes;
                  start_after = tt;
                  delimiter = (omega arith, tt);
                  encoding_type = tt;
                  not_url = λ e. cc;
                  prefix = bytes;
                })
                    ∙ ap some (asks_v2 client_api bucket prefix token),
                (
                  r,
                  parsed,
                  p,
                  subst (λ page. HasToken r.is_truncated page.token) (sym p)
                      (parse_list_objects_v2-HasToken x d body r parsed),
                ),
              )
        ]
