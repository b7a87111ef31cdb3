-- ===== src/Tests/Pages.antt =====
-- The theorem on a worker's listing call at a session whose every answer is the same body.
use s3cpp.Prelude.{◌≡◌, ◌⊎◌, none, codes}
use s3cpp.S3.Client.{answered, list_objects_v2}
use s3cpp.ListAllObjects.Misc.{v2}
use s3cpp.ListAllObjects.Process.{ClientApi, listed, page_v2, list_one, retry}
use s3cpp.ListAllObjects.Online.{client_api, Asked, GaveUp, list_one-Asked}
use s3cpp.Tests.Fixtures.{boost, boost-IsBoostUrl}
use s3cpp.Tests.Markup.{pugi, describe}
use s3cpp.Tests.Answers.{session, document, listing_v2, listing_v2_parsed}

abbrev online : ClientApi
online = client_api session boost (pugi document) describe tt (λ net. net)

answers_page : list_one online (codes "b") v2 none none tt ≡ (listed (page_v2 listing_v2), tt)
unfolding list_one retry list_objects_v2 answered
answers_page = rw (listing_v2_parsed (codes "body"), list_one, retry, list_objects_v2, answered)

list_one-Asked_example :
    Asked session boost
      (pugi document)
      describe
      tt
      (λ net. net)
      (codes "b")
      none
      none
      v2
      (page_v2 listing_v2)
      tt
    ⊎ GaveUp session boost
        (pugi document)
        describe
        tt
        (λ net. net)
        (codes "b")
        none
        none
        v2
        (page_v2 listing_v2)
        tt
        tt
list_one-Asked_example =
    list_one-Asked session boost (pugi document) describe tt (λ net. net) (codes "b") none none
      boost-IsBoostUrl tt tt v2 (page_v2 listing_v2) tt tt answers_page
