-- ===== src/App/Catalog.antt =====
-- internal/app/catalog.go: the types of the catalog use cases and the repositories they need.
use keebhub.Prelude.{ℕ, Bool, Option, List, ℤ, Text, String}
use keebhub.Domain.Listing.{Category, Listing, ListingCondition, ListingStatus}
use keebhub.App.Exec.{Exec}
pub mod Validation
pub mod Rules
pub mod Service
pub mod Guards
pub mod Creation
pub mod Pages
pub mod OwnedPages
pub mod OwnedLaws
pub mod PublicPages
pub mod Search
pub mod Options

pub record CreateListingInput : Type 0 where
  pub title : Text
  pub description : Text
  pub price_idr : ℤ
  pub quantity : ℤ
  pub category_slug : Text
  pub condition : ListingCondition
  pub negotiable : Bool

pub record CreateListingParams : Type 0 where
  pub seller_id : ℕ
  pub category_id : ℕ
  pub title : Text
  pub description : Text
  pub price_idr : ℤ
  pub quantity : ℤ
  pub condition : ListingCondition
  pub negotiable : Bool
  pub created_at : ℕ
  pub updated_at : ℕ

pub record UpdateListingInput : Type 0 where
  pub title : Option Text
  pub description : Option Text
  pub price_idr : Option ℤ
  pub quantity : Option ℤ
  pub category_slug : Option Text
  pub condition : Option ListingCondition
  pub negotiable : Option Bool

pub record UpdateListingParams : Type 0 where
  pub listing_id : ℕ
  pub seller_id : ℕ
  pub category_id : Option ℕ
  pub title : Option Text
  pub description : Option Text
  pub price_idr : Option ℤ
  pub quantity : Option ℤ
  pub condition : Option ListingCondition
  pub negotiable : Option Bool
  pub updated_at : ℕ

pub record OwnedListingQuery : Type 0 where
  pub seller_id : ℕ
  pub status : Option ListingStatus
  pub cursor_updated_at : Option ℕ
  pub cursor_id : Option ℕ
  pub limit : ℕ

-- The constants of ListingSort; `unset` is "" and the last constructor any further string.
pub data ListingSort : Type 0 where
  newest price_asc price_desc unset : ListingSort
  other : String → ListingSort

pub record SearchListingsQuery : Type 0 where
  pub query : Option Text
  pub category : Option Text
  pub condition : Option ListingCondition
  pub minimum_price : Option ℤ
  pub maximum_price : Option ℤ
  pub sort : ListingSort
  pub cursor_created_at : Option ℕ
  pub cursor_price_idr : Option ℤ
  pub cursor_id : Option ℕ
  pub limit : ℕ

-- The filters of SearchListingsOptions; its cursor and limit are arguments of their own.
pub record SearchFilters : Type 0 where
  pub query : Text
  pub category : Text
  pub condition : Option ListingCondition
  pub minimum_price : Option ℤ
  pub maximum_price : Option ℤ
  pub sort : ListingSort

-- A page and its NextCursor.
pub record ListingPage (Token : Type 0) : Type 0 where
  pub items : List Listing
  pub next_cursor : Option Token

pub record CategoryRepository (S : Type 0) : Type 0 where
  pub list_active_categories : Exec S (List Category)
  pub find_active_category_by_slug : Text → Exec S Category

pub record ListingRepository (S : Type 0) : Type 0 where
  pub create_listing : CreateListingParams → Exec S Listing
  pub get_listing : ℕ → Exec S Listing
  pub update_owned_listing : UpdateListingParams → Exec S Listing
  pub update_owned_listing_status : ℕ → ℕ → ListingStatus → ℕ → Exec S Listing
  pub list_owned_listings : OwnedListingQuery → Exec S (List Listing)
  pub search_listings : SearchListingsQuery → Exec S (List Listing)

-- The nil of a dependency is `none`. The readings of `now` are arguments of the operations.
pub record CatalogService (S : Type 0) : Type 0 where
  pub categories : Option (CategoryRepository S)
  pub listings : Option (ListingRepository S)
