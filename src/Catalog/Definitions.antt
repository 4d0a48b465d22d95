-- ===== src/Catalog/Definitions.antt =====
-- The static item catalog of app/modules/game/catalog.py.
use cat_game_backend.Base.{ℕ, String, Option, none, some, List, [], ◌∷◌}
use cat_game_backend.Store.Rows.{Category, furniture, wallpaper, floor, consumable}

pub data FurnitureKind : Type 0 where
  sofa desk cat_tree bed plant rug hideout scratcher litter_box : FurnitureKind

-- `ItemDefinition`: a `None` of the source is `none`.
pub record ItemDefinition : Type 0 where
  pub catalog_key : String
  pub category : Category
  pub name : String
  pub price : ℕ
  pub furniture_kind : Option FurnitureKind
  pub width : Option ℕ
  pub height : Option ℕ
  pub consumable_effect : Option String

-- The three ways in which the catalog calls the constructor.
abbrev furnish : String → String → ℕ → FurnitureKind → ℕ → ℕ → ItemDefinition
furnish key name price kind width height = record {
  catalog_key = key;
  category = furniture;
  name = name;
  price = price;
  furniture_kind = some kind;
  width = some width;
  height = some height;
  consumable_effect = none;
}

abbrev treat : String → String → ℕ → String → ItemDefinition
treat key name price effect = record {
  catalog_key = key;
  category = consumable;
  name = name;
  price = price;
  furniture_kind = none;
  width = none;
  height = none;
  consumable_effect = some effect;
}

abbrev surface : String → Category → String → ℕ → ItemDefinition
surface key category name price = record {
  catalog_key = key;
  category = category;
  name = name;
  price = price;
  furniture_kind = none;
  width = none;
  height = none;
  consumable_effect = none;
}

-- `ITEM_DEFINITIONS`
unfoldable pub item_definitions : List ItemDefinition
item_definitions =
    furnish "furniture.sofa" "버섯 숲 벤치" 4800 sofa 3 1
    ∷ furnish "furniture.table" "낮은 원목 탁자" 3200 desk 2 1
    ∷ furnish "furniture.catTower" "잎사귀 스크래처" 4200 cat_tree 2 1
    ∷ furnish "furniture.bed" "초록 발바닥 쿠션" 5600 bed 3 2
    ∷ furnish "furniture.desk" "통나무 숨숨집" 3900 desk 2 1
    ∷ furnish "furniture.premiumTower" "거목 캣타워" 90 cat_tree 2 1
    ∷ furnish "decor.plant" "분홍 들꽃 덤불" 1700 plant 1 1
    ∷ furnish "decor.reed-clump" "햇살 갈대숲" 900 plant 1 1
    ∷ furnish "decor.rock-angular" "뾰족 이끼바위" 1100 plant 1 1
    ∷ furnish "decor.rock-round" "둥근 이끼바위" 1200 plant 1 1
    ∷ furnish "decor.fallen-log" "이끼 낀 쓰러진 통나무" 1800 rug 3 1
    ∷ furnish "decor.cardboard-box" "골목의 열린 상자" 700 plant 1 1
    ∷ furnish "decor.trash-bag" "묶어 둔 골목 봉투" 600 plant 1 1
    ∷ furnish "decor.sealed-box" "테이프로 봉한 상자" 800 plant 1 1
    ∷ furnish "decor.plastic-crate" "낡은 플라스틱 바구니" 750 plant 1 1
    ∷ furnish "decor.alley-food-bowl" "골목의 분홍 밥그릇" 550 plant 1 1
    ∷ furnish "decor.alley-water-bowl" "골목의 파란 물그릇" 550 plant 1 1
    ∷ furnish "decor.crushed-can" "찌그러진 빨간 캔" 180 plant 1 1
    ∷ furnish "decor.old-brick" "이끼 묻은 벽돌" 220 plant 1 1
    ∷ furnish "decor.paper-ball" "구겨진 종이공" 160 plant 1 1
    ∷ furnish "decor.plastic-bottle" "납작한 물병" 180 plant 1 1
    ∷ furnish "decor.newspaper-stack" "묶어 둔 신문 더미" 350 plant 1 1
    ∷ furnish "decor.litter-scoop" "민트색 모래삽" 400 plant 1 1
    ∷ furnish "decor.yarn-ball" "분홍 털실공" 450 plant 1 1
    ∷ furnish "decor.teaser-set" "깃털 낚싯대 세트" 650 plant 1 1
    ∷ furnish "decor.fur-pile" "복슬복슬 털뭉치" 300 plant 1 1
    ∷ furnish "decor.room-water-bowl" "민트 발바닥 물그릇" 600 plant 1 1
    ∷ furnish "decor.room-food-bowl" "민트 발바닥 밥그릇" 600 plant 1 1
    ∷ furnish "furniture.forest.rug" "나뭇잎 원형 러그" 2100 rug 3 1
    ∷ furnish "furniture.forest.cat-tower" "거목 놀이터 캣타워" 4900 cat_tree 2 1
    ∷ furnish "furniture.forest.hideout" "통나무 숲 숨숨집" 3600 hideout 2 1
    ∷ furnish "furniture.forest.scratcher" "잎사귀 스크래처" 2800 scratcher 2 1
    ∷ furnish "furniture.forest.litter-box" "이끼숲 화장실" 3400 litter_box 2 1
    ∷ furnish "furniture.forest.rug-2" "고사리 잎방석" 2300 rug 3 1
    ∷ furnish "furniture.forest.cat-tower-2" "돌샘 숲 캣타워" 5300 cat_tree 2 1
    ∷ furnish "furniture.forest.hideout-2" "그루터기 동굴 숨숨집" 3900 hideout 2 1
    ∷ furnish "furniture.forest.scratcher-2" "덩굴 통나무 스크래처" 3000 scratcher 2 1
    ∷ furnish "furniture.forest.litter-box-2" "돌담 모래 화장실" 3700 litter_box 2 1
    ∷ furnish "furniture.forest.bench-2" "꽃그늘 버섯 벤치" 5000 sofa 3 1
    ∷ furnish "furniture.forest.cat-tower-3" "가지 쉼터 캣타워" 4800 cat_tree 2 1
    ∷ furnish "furniture.forest.hideout-3" "이끼 동굴 숨숨집" 4100 hideout 2 1
    ∷ furnish "furniture.alley.rug" "골목빛 패브릭 러그" 1900 rug 3 1
    ∷ furnish "furniture.alley.cat-tower" "상자 요새 캣타워" 4600 cat_tree 2 1
    ∷ furnish "furniture.alley.hideout" "골목 상자 숨숨집" 3200 hideout 2 1
    ∷ furnish "furniture.alley.scratcher" "골목 기둥 스크래처" 2500 scratcher 2 1
    ∷ furnish "furniture.alley.litter-box" "나무 상자 화장실" 3000 litter_box 2 1
    ∷ furnish "furniture.alley.rug-2" "신문지 포근 매트" 1700 rug 3 1
    ∷ furnish "furniture.alley.cat-tower-2" "폐목재 골목 캣타워" 4200 cat_tree 2 1
    ∷ furnish "furniture.alley.hideout-2" "천막 나무상자 숨숨집" 2900 hideout 2 1
    ∷ furnish "furniture.alley.scratcher-2" "골목 경사 스크래처" 2200 scratcher 2 1
    ∷ furnish "furniture.alley.scratcher-3" "세로 골판지 스크래처" 2600 scratcher 2 1
    ∷ furnish "furniture.alley.litter-box-2" "골목 나무틀 화장실" 2800 litter_box 2 1
    ∷ furnish "furniture.alley.litter-box-3" "골목 철제 모래 화장실" 3200 litter_box 2 1
    ∷ furnish "furniture.room.rug" "포근한 방 러그" 2400 rug 3 1
    ∷ furnish "furniture.room.cat-tower" "거실 원목 캣타워" 5200 cat_tree 2 1
    ∷ furnish "furniture.room.hideout" "원목 상자 숨숨집" 3800 hideout 2 1
    ∷ furnish "furniture.room.scratcher" "거실 기둥 스크래처" 2900 scratcher 2 1
    ∷ furnish "furniture.room.litter-box" "원목 고양이 화장실" 3500 litter_box 2 1
    ∷ furnish "furniture.room.rug-2" "잎사귀 테두리 러그" 2600 rug 3 1
    ∷ furnish "furniture.room.cat-tower-2" "클래식 원목 캣타워" 5000 cat_tree 2 1
    ∷ furnish "furniture.room.cat-tower-3" "화분 해먹 캣타워" 5600 cat_tree 2 1
    ∷ furnish "furniture.room.hideout-2" "패브릭 원목 숨숨집" 4100 hideout 2 1
    ∷ furnish "furniture.room.scratcher-2" "거실 경사 스크래처" 3100 scratcher 2 1
    ∷ furnish "furniture.room.litter-box-2" "화이트 원목 화장실" 3800 litter_box 2 1
    ∷ furnish "furniture.desk-theme.rug" "서재 포인트 러그" 2300 rug 3 1
    ∷ furnish "furniture.desk-theme.cat-tower" "책상 옆 캣타워" 4800 cat_tree 2 1
    ∷ furnish "furniture.desk-theme.hideout" "서재 원목 숨숨집" 3700 hideout 2 1
    ∷ furnish "furniture.desk-theme.scratcher" "클립보드 스크래처" 2700 scratcher 2 1
    ∷ furnish "furniture.desk-theme.litter-box" "서재 수납형 화장실" 3300 litter_box 2 1
    ∷ furnish "furniture.desk-theme.rug-2" "메모지 발바닥 러그" 2500 rug 3 1
    ∷ furnish "furniture.desk-theme.cat-tower-2" "책더미 캣타워" 5100 cat_tree 2 1
    ∷ furnish "furniture.desk-theme.hideout-2" "택배 상자 숨숨집" 3900 hideout 2 1
    ∷ furnish "furniture.desk-theme.scratcher-2" "연필 경사 스크래처" 2900 scratcher 2 1
    ∷ furnish "furniture.desk-theme.litter-box-2" "서재 화이트 화장실" 3500 litter_box 2 1
    ∷ furnish "furniture.ocean.rug" "조개빛 해변 러그" 2500 rug 3 1
    ∷ furnish "furniture.ocean.cat-tower" "모래성 캣타워" 5400 cat_tree 2 1
    ∷ furnish "furniture.ocean.hideout" "파도 동굴 숨숨집" 4000 hideout 2 1
    ∷ furnish "furniture.ocean.scratcher" "해변 곡선 스크래처" 3000 scratcher 2 1
    ∷ furnish "furniture.ocean.litter-box" "조개 정원 화장실" 3700 litter_box 2 1
    ∷ furnish "furniture.ocean.rug-2" "밧줄 해변 러그" 2700 rug 3 1
    ∷ furnish "furniture.ocean.cat-tower-2" "조개 모래성 캣타워" 5200 cat_tree 2 1
    ∷ furnish "furniture.ocean.cat-tower-3" "등대 해변 캣타워" 5700 cat_tree 2 1
    ∷ furnish "furniture.ocean.hideout-2" "파란 해변 오두막" 4200 hideout 2 1
    ∷ furnish "furniture.ocean.scratcher-2" "파도 경사 스크래처" 3200 scratcher 2 1
    ∷ furnish "furniture.ocean.litter-box-2" "민트 조개 화장실" 3900 litter_box 2 1
    ∷ treat "consumable.salmon-cubes" "연어 큐브 간식" 180 "happy"
    ∷ treat "consumable.chicken-strips" "닭가슴살 스틱" 150 "relaxed"
    ∷ treat "consumable.catnip-biscuits" "캣닢 잎사귀 비스킷" 220 "playful"
    ∷ treat "consumable.tuna-soup" "참치 크림 수프" 200 "curious"
    ∷ surface "wallpaper.cream" wallpaper "숲길 공터" 2100
    ∷ surface "wallpaper.cloud" wallpaper "햇살 숲 공터" 2400
    ∷ surface "wallpaper.forest" wallpaper "폭포 숲" 2800
    ∷ surface "wallpaper.flower" wallpaper "담쟁이 돌마당" 2600
    ∷ surface "wallpaper.night" wallpaper "황혼의 서재" 70
    ∷ surface "wallpaper.cat" wallpaper "포근한 나무방" 3000
    ∷ surface "wallpaper.modernAlley" wallpaper "푸른 하늘 골목" 2900
    ∷ surface "wallpaper.villageAlley" wallpaper "오래된 동네 마당" 3100
    ∷ surface "wallpaper.sunnyStudio" wallpaper "햇살 가득 스튜디오" 3200
    ∷ surface "wallpaper.livingRoom" wallpaper "초록빛 거실" 3400
    ∷ surface "wallpaper.cityOffice" wallpaper "도시 전망 작업실" 3600
    ∷ surface "wallpaper.botanicalDesk" wallpaper "식물 연구 책상" 2700
    ∷ surface "wallpaper.musicDesk" wallpaper "음악 감상 책상" 3000
    ∷ surface "wallpaper.sandyCove" wallpaper "조개빛 모래 해변" 3300
    ∷ surface "wallpaper.seasidePromenade" wallpaper "바닷바람 산책로" 3500
    ∷ surface "wallpaper.workingHarbor" wallpaper "활기찬 항구" 3800
    ∷ surface "floor.oak" floor "참나무 길" 2300
    ∷ surface "floor.check" floor "체크 돗자리" 2600
    ∷ surface "floor.stone" floor "돌바닥 길" 2800
    ∷ surface "floor.cream" floor "크림빛 길" 2100
    ∷ surface "floor.star" floor "별빛 길" 65
    ∷ surface "floor.walnut" floor "호두나무 길" 3100
    ∷ []
