-- ===== src/HttpHelper/Examples.antt =====
-- Requests and responses that are lists of numbers, for the middlewares of src/http_helper.rs.
use dmeng.Prelude.{ℕ, ◌≡◌, false, none, some, List, [], ◌∷◌}
use dmeng.Prelude.Poll.{ok, err}
use dmeng.Error.{extension}
use dmeng.HeaderHelper.{http1}
use dmeng.Http1.Examples.{named}
use dmeng.HttpHelper.{Messages, encode, handle_request}
use dmeng.HttpHelper.Calls.{Behaviour, Call, asks, answers, handles, fails, handler}
use dmeng.HttpHelper.Order.{handle_request-order}

abbrev lists : Messages
lists = record {
  words = named;
  Req = List ℕ;
  Res = List ℕ;
  Addr = ℕ;
  accept_encoding = λ r. some 1;
  insert_client = λ a r. a ∷ r;
  set_version = λ v res. 11 ∷ res;
  get_body_len = λ res. some 0;
  content_encoding = λ res. none;
  body_is_end = λ res. false;
  origin_len = λ res. 0;
  insert_encoding = λ word res. 99 ∷ res;
  server_error = 500 ∷ [];
}

-- One that changes a request and its response.
abbrev marks : Behaviour lists
marks = record {
  answer = λ r. ok none;
  change = λ r. 7 ∷ r;
  finish = λ res. ok tt;
  amend = λ res. 8 ∷ res;
}

-- One that answers.
abbrev stops : Behaviour lists
stops = record {
  answer = λ r. ok (some (200 ∷ []));
  change = λ r. r;
  finish = λ res. ok tt;
  amend = λ res. 9 ∷ res;
}

-- One that fails on the way out.
abbrev breaks : Behaviour lists
breaks = record {
  answer = λ r. ok none;
  change = λ r. r;
  finish = λ res. err (extension "broken");
  amend = λ res. res;
}

abbrev same : List ℕ → List ℕ
same r = r

-- The handler fails.
handle_request-order_example :
    handle_request lists
      (List Call)
      http1
      (some 4)
      (1 ∷ [])
      (handler lists same (marks ∷ marks ∷ []) (λ r. err (extension "down")))
      []
      []
    ≡ (
      ok (8 ∷ 8 ∷ 500 ∷ []),
      asks 0 ∷ asks 1 ∷ handles ∷ fails 0 ∷ fails 1 ∷ answers 1 ∷ answers 0 ∷ [],
    )
handle_request-order_example =
    handle_request-order lists http1 (some 4) (1 ∷ []) same (λ r. err (extension "down"))
      (marks ∷ marks ∷ []) []

-- The third middleware is not asked, and finishes the response all the same.
stopped :
    handle_request lists
      (List Call)
      http1
      none
      (1 ∷ [])
      (handler lists same (marks ∷ stops ∷ marks ∷ []) (λ r. ok r))
      []
      []
    ≡ (ok (8 ∷ 9 ∷ 8 ∷ 200 ∷ []), asks 0 ∷ asks 1 ∷ answers 2 ∷ answers 1 ∷ answers 0 ∷ [])
stopped =
    handle_request-order lists http1 none (1 ∷ []) same (λ r. ok r) (marks ∷ stops ∷ marks ∷ []) []

-- The first middleware does not see the response that the second one fails on.
broken :
    handle_request lists
      (List Call)
      http1
      none
      (1 ∷ [])
      (handler lists same (marks ∷ breaks ∷ []) (λ r. ok r))
      []
      []
    ≡ (err (extension "broken"), asks 0 ∷ asks 1 ∷ handles ∷ answers 1 ∷ [])
unfolding encode
broken = handle_request-order lists http1 none (1 ∷ []) same (λ r. ok r) (marks ∷ breaks ∷ []) []
